-- ===== src/Buffer/Contents.antt =====
-- What a buffer promises: it holds a sequence of bytes, appended to at the end and shifted out at the front.
use imquic.Base.{ℕ, ◌++◌, Bytes, drop}

abbrev pub append : (contents bs : Bytes) → Bytes
append contents bs = contents ++ bs

abbrev pub shift : (contents : Bytes) (n : ℕ) → Bytes
shift contents n = drop n contents
