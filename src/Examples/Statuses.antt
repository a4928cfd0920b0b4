-- ===== src/Examples/Statuses.antt =====
-- The status codes at a concrete code.
use ctornado.Status.{get_response_w3c_name, is_valid_response_code, is_valid_response_code_lem}
use ctornado.Str.{eq_bytes}
use ctornado.Base.{codes, not, ◌≡◌}

is_valid_response_code_example :
    is_valid_response_code 404 ≡ not (eq_bytes (get_response_w3c_name 404) (codes "Unknown"))
is_valid_response_code_example = is_valid_response_code_lem 404
