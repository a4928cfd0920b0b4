-- ===== src/Examples/Strings.antt =====
-- Strings at concrete inputs.
use ctornado.Base.{codes, ◌≡◌}
use ctornado.Str.{}
use ctornado.Str.Find.{memmem, strnfind_portable, strnfind_portable-memmem}
use ctornado.Str.Split.{}

portable_example :
    strnfind_portable (codes "xabcabd") b'a' (codes "bd") ≡ memmem (codes "xabcabd") (codes "abd")
portable_example = strnfind_portable-memmem (codes "xabcabd") b'a' (codes "bd")
