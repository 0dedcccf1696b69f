-- ===== src/Udp/Tests.antt =====
-- The port 42423, and what lies behind its end.
use libtrp.Base.{◌≡◌, ◌++◌, arith, some, List, ℕ, [], ◌∷◌}
use libtrp.Udp.{validate_info}
use libtrp.Udp.Laws.{AreChars, is_port, validate_info-is_port}

abbrev port : List ℕ
port = 52 ∷ 50 ∷ 52 ∷ 50 ∷ 51 ∷ []

port-AreChars : AreChars port
port-AreChars = (omega arith, (omega arith, (omega arith, (omega arith, (omega arith, tt)))))

validate_info-is_port_example : validate_info (port ++ 0 ∷ 255 ∷ []) ≡ some (is_port port)
validate_info-is_port_example = validate_info-is_port port (255 ∷ []) port-AreChars
