-- ===== src/Qpack/Static.antt =====
-- The static table of QPACK (qpack.c): `imquic_qpack_static_table`.
use Prim.Native.String.{String}
use imquic.Base.{ℕ, List, [], ◌∷◌, none, some}
use imquic.Qpack.Entry.{Entry}

abbrev entry : ℕ → String → String → Entry
entry id name value = record { id = id; name = some name; value = some value }

abbrev bare : ℕ → String → Entry
bare id name = record { id = id; name = some name; value = none }

abbrev pub static_table : List Entry
static_table =
    bare 0 ":authority"
    ∷ entry 1 ":path" "/"
    ∷ entry 2 "age" "0"
    ∷ bare 3 "content-disposition"
    ∷ entry 4 "content-length" "0"
    ∷ bare 5 "cookie"
    ∷ bare 6 "date"
    ∷ bare 7 "etag"
    ∷ bare 8 "if-modified-since"
    ∷ bare 9 "if-none-match"
    ∷ bare 10 "last-modified"
    ∷ bare 11 "link"
    ∷ bare 12 "location"
    ∷ bare 13 "referer"
    ∷ bare 14 "set-cookie"
    ∷ entry 15 ":method" "CONNECT"
    ∷ entry 16 ":method" "DELETE"
    ∷ entry 17 ":method" "GET"
    ∷ entry 18 ":method" "HEAD"
    ∷ entry 19 ":method" "OPTIONS"
    ∷ entry 20 ":method" "POST"
    ∷ entry 21 ":method" "PUT"
    ∷ entry 22 ":scheme" "http"
    ∷ entry 23 ":scheme" "https"
    ∷ entry 24 ":status" "103"
    ∷ entry 25 ":status" "200"
    ∷ entry 26 ":status" "304"
    ∷ entry 27 ":status" "404"
    ∷ entry 28 ":status" "503"
    ∷ entry 29 "accept" "*/*"
    ∷ entry 30 "accept" "application/dns-message"
    ∷ entry 31 "accept-encoding" "gzip, deflate, br"
    ∷ entry 32 "accept-ranges" "bytes"
    ∷ entry 33 "access-control-allow-headers" "cache-control"
    ∷ entry 34 "access-control-allow-headers" "content-type"
    ∷ entry 35 "access-control-allow-origin" "*"
    ∷ entry 36 "cache-control" "max-age=0"
    ∷ entry 37 "cache-control" "max-age=2592000"
    ∷ entry 38 "cache-control" "max-age=604800"
    ∷ entry 39 "cache-control" "no-cache"
    ∷ entry 40 "cache-control" "no-store"
    ∷ entry 41 "cache-control" "public, max-age=31536000"
    ∷ entry 42 "content-encoding" "br"
    ∷ entry 43 "content-encoding" "gzip"
    ∷ entry 44 "content-type" "application/dns-message"
    ∷ entry 45 "content-type" "application/javascript"
    ∷ entry 46 "content-type" "application/json"
    ∷ entry 47 "content-type" "application/x-www-form-urlencoded"
    ∷ entry 48 "content-type" "image/gif"
    ∷ entry 49 "content-type" "image/jpeg"
    ∷ entry 50 "content-type" "image/png"
    ∷ entry 51 "content-type" "text/css"
    ∷ entry 52 "content-type" "text/html; charset=utf-8"
    ∷ entry 53 "content-type" "text/plain"
    ∷ entry 54 "content-type" "text/plain;charset=utf-8"
    ∷ entry 55 "range" "bytes=0-"
    ∷ entry 56 "strict-transport-security" "max-age=31536000"
    ∷ entry 57 "strict-transport-security" "max-age=31536000; includesubdomains"
    ∷ entry 58 "strict-transport-security" "max-age=31536000; includesubdomains; preload"
    ∷ entry 59 "vary" "accept-encoding"
    ∷ entry 60 "vary" "origin"
    ∷ entry 61 "x-content-type-options" "nosniff"
    ∷ entry 62 "x-xss-protection" "1; mode=block"
    ∷ entry 63 ":status" "100"
    ∷ entry 64 ":status" "204"
    ∷ entry 65 ":status" "206"
    ∷ entry 66 ":status" "302"
    ∷ entry 67 ":status" "400"
    ∷ entry 68 ":status" "403"
    ∷ entry 69 ":status" "421"
    ∷ entry 70 ":status" "425"
    ∷ entry 71 ":status" "500"
    ∷ bare 72 "accept-language"
    ∷ entry 73 "access-control-allow-credentials" "FALSE"
    ∷ entry 74 "access-control-allow-credentials" "TRUE"
    ∷ entry 75 "access-control-allow-headers" "*"
    ∷ entry 76 "access-control-allow-methods" "get"
    ∷ entry 77 "access-control-allow-methods" "get, post, options"
    ∷ entry 78 "access-control-allow-methods" "options"
    ∷ entry 79 "access-control-expose-headers" "content-length"
    ∷ entry 80 "access-control-request-headers" "content-type"
    ∷ entry 81 "access-control-request-method" "get"
    ∷ entry 82 "access-control-request-method" "post"
    ∷ entry 83 "alt-svc" "clear"
    ∷ bare 84 "authorization"
    ∷ entry 85 "content-security-policy" "script-src 'none'; object-src 'none'; base-uri 'none'"
    ∷ entry 86 "early-data" "1"
    ∷ bare 87 "expect-ct"
    ∷ bare 88 "forwarded"
    ∷ bare 89 "if-range"
    ∷ bare 90 "origin"
    ∷ entry 91 "purpose" "prefetch"
    ∷ bare 92 "server"
    ∷ entry 93 "timing-allow-origin" "*"
    ∷ entry 94 "upgrade-insecure-requests" "1"
    ∷ bare 95 "user-agent"
    ∷ bare 96 "x-forwarded-for"
    ∷ entry 97 "x-frame-options" "deny"
    ∷ entry 98 "x-frame-options" "sameorigin"
    ∷ []
