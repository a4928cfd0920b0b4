-- ===== src/Status.antt =====
-- The status codes of src/lib/httplib.cc and their names.
use Prim.Native.String.{String}
use ctornado.Base.{
  All, Bool, Bool-cases, Bytes, List, [], ap, codes, false, if◌then◌else◌, inl, inr, map, not, refl,
  sym, true, ℕ, ◌==◌, ◌∷◌, ◌≡◌,
}
use ctornado.Str.{eq_bytes}

-- `valid_code`
abbrev pub valid_codes : List ℕ
valid_codes =
    100 ∷ 101 ∷ 102 ∷ 200 ∷ 201 ∷ 202 ∷ 203 ∷ 204 ∷ 205 ∷ 206 ∷ 207 ∷ 226 ∷ 300 ∷ 301 ∷ 302 ∷ 303
    ∷ 304 ∷ 305 ∷ 307 ∷ 400 ∷ 401 ∷ 402 ∷ 403 ∷ 404 ∷ 405 ∷ 406 ∷ 407 ∷ 408 ∷ 409 ∷ 410 ∷ 411 ∷ 412
    ∷ 413 ∷ 414 ∷ 415 ∷ 416 ∷ 417 ∷ 422 ∷ 423 ∷ 424 ∷ 426 ∷ 500 ∷ 501 ∷ 502 ∷ 503 ∷ 504 ∷ 505 ∷ 507
    ∷ 510 ∷ []

-- the cases of the switch
abbrev pub w3c_names : List (ℕ × String)
w3c_names =
    (100, "Continue")
    ∷ (101, "Switching Protocols")
    ∷ (102, "Processing (WEBDAV)")
    ∷ (200, "OK")
    ∷ (201, "Created")
    ∷ (202, "Accepted")
    ∷ (203, "Non-Authoritative Information")
    ∷ (204, "No Content")
    ∷ (205, "Reset Content")
    ∷ (206, "Partial Content")
    ∷ (207, "Multi Status (WEBDAV)")
    ∷ (226, "Im Used (Delta encoding)")
    ∷ (300, "Multiple Choices")
    ∷ (301, "Moved Permanently")
    ∷ (302, "Found")
    ∷ (303, "See Other")
    ∷ (304, "Not Modified")
    ∷ (305, "Use Proxy")
    ∷ (307, "Temporary Redirect")
    ∷ (400, "Bad Request")
    ∷ (401, "Unauthorized")
    ∷ (402, "Payment Required")
    ∷ (403, "Forbidden")
    ∷ (404, "Not Found")
    ∷ (405, "Method Not Allowed")
    ∷ (406, "Not Acceptable")
    ∷ (407, "Proxy Authentication Required")
    ∷ (408, "Request Timeout")
    ∷ (409, "Conflict")
    ∷ (410, "Gone")
    ∷ (411, "Length Required")
    ∷ (412, "Precondition Failed")
    ∷ (413, "Request Entity Too Large")
    ∷ (414, "Request-URI Too Long")
    ∷ (415, "Unsupported Media Type")
    ∷ (416, "Requested Range Not Satisfiable")
    ∷ (417, "Expectation Failed")
    ∷ (422, "Unprocessable Entity (WEBDAV)")
    ∷ (423, "Locked (WEBDAV)")
    ∷ (424, "Failed Dependency (WEBDAV)")
    ∷ (426, "Upgrade Required (Upgrade to TLS)")
    ∷ (500, "Internal Server Error")
    ∷ (501, "Not Implemented")
    ∷ (502, "Bad Gateway")
    ∷ (503, "Service Unavailable")
    ∷ (504, "Gateway Timeout")
    ∷ (505, "HTTP Version Not Supported")
    ∷ (507, "Insufficient Storage (WEBDAV)")
    ∷ (510, "Not Extended (An Extension Framework)")
    ∷ []

-- the loop over `valid_code`
unfoldable pub is_code : ℕ → List ℕ → Bool
is_code code [] = false
is_code code (c ∷ cs) = let rest = is_code code cs in if code == c then true else rest

unfoldable pub is_valid_response_code : ℕ → Bool
unfolding is_code
is_valid_response_code code = is_code code valid_codes

-- the switch, with its default
unfoldable pub name_of : ℕ → List (ℕ × String) → Bytes
name_of code [] = codes "Unknown"
name_of code ((c, name) ∷ names) =
    let rest = name_of code names in if code == c then codes name else rest

unfoldable pub get_response_w3c_name : ℕ → Bytes
unfolding name_of
get_response_w3c_name code = name_of code w3c_names

-- names that are not the default
IsNamed : ℕ × String → Type 0
IsNamed p = eq_bytes (codes p.1) (codes "Unknown") ≡ false

same_codes :
    (code : ℕ) (names : List (ℕ × String))
    → All IsNamed names
    → is_code code (map (λ p. p.0) names) ≡ not (eq_bytes (name_of code names) (codes "Unknown"))
unfolding is_code name_of IsNamed eq_bytes
same_codes code [] h = refl
same_codes code ((c, name) ∷ names) (h, hs) = elim (Bool-cases (code == c)) [
  | inl here ↦ rw (here) (sym (ap not h))
  | inr past ↦ rw (past) (same_codes code names hs)
]

-- A code is valid just if `get_response_w3c_name` has a name for it other than "Unknown".
pub is_valid_response_code_lem :
    (code : ℕ)
    → is_valid_response_code code ≡ not (eq_bytes (get_response_w3c_name code) (codes "Unknown"))
unfolding is_valid_response_code get_response_w3c_name IsNamed eq_bytes
is_valid_response_code_lem code = same_codes code w3c_names (
  refl,
  (
    refl,
    (
      refl,
      (
        refl,
        (
          refl,
          (
            refl,
            (
              refl,
              (
                refl,
                (
                  refl,
                  (
                    refl,
                    (
                      refl,
                      (
                        refl,
                        (
                          refl,
                          (
                            refl,
                            (
                              refl,
                              (
                                refl,
                                (
                                  refl,
                                  (
                                    refl,
                                    (
                                      refl,
                                      (
                                        refl,
                                        (
                                          refl,
                                          (
                                            refl,
                                            (
                                              refl,
                                              (
                                                refl,
                                                (
                                                  refl,
                                                  (
                                                    refl,
                                                    (
                                                      refl,
                                                      (
                                                        refl,
                                                        (
                                                          refl,
                                                          (
                                                            refl,
                                                            (
                                                            refl,
                                                            (
                                                            refl,
                                                            (
                                                            refl,
                                                            (
                                                            refl,
                                                            (
                                                            refl,
                                                            (
                                                            refl,
                                                            (
                                                            refl,
                                                            (
                                                            refl,
                                                            (
                                                            refl,
                                                            (
                                                            refl,
                                                            (
                                                            refl,
                                                            (
                                                            refl,
                                                            (
                                                            refl,
                                                            (
                                                            refl,
                                                            (
                                                            refl,
                                                            (refl, (refl, (refl, (refl, tt)))),
                                                            ),
                                                            ),
                                                            ),
                                                            ),
                                                            ),
                                                            ),
                                                            ),
                                                            ),
                                                            ),
                                                            ),
                                                            ),
                                                            ),
                                                            ),
                                                            ),
                                                            ),
                                                          ),
                                                        ),
                                                      ),
                                                    ),
                                                  ),
                                                ),
                                              ),
                                            ),
                                          ),
                                        ),
                                      ),
                                    ),
                                  ),
                                ),
                              ),
                            ),
                          ),
                        ),
                      ),
                    ),
                  ),
                ),
              ),
            ),
          ),
        ),
      ),
    ),
  ),
)
