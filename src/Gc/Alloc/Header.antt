-- ===== src/Gc/Alloc/Header.antt =====
-- reference/shen-gc/gc.c: the fields of a header are read back.
use fx_ui.Base.{ℕ, ◌*◌, ◌%◌, ◌^◌, ◌<◌, ◌≡◌, false, arith}
use fx_ui.Gc.Alloc.{make_header, forwarded, header_type, header_words}

-- A header of at most 24 bits of words and 20 of type is no forwarding pointer, and has both.
pub make_header_lem :
    (words ty : ℕ)
    → words < 2 ^ 24
    → ty < 2 ^ 20
    → (forwarded (make_header words ty) ≡ false)
      × (header_words (make_header words ty) ≡ words)
      × (header_type (make_header words ty) ≡ ty)
unfolding make_header forwarded header_type header_words
make_header_lem words ty hw ht =
    let small : ty * 2 ^ 25 % 2 ^ 64 ≡ ty * 2 ^ 25 = omega arith in
    (ground arith, omega arith, omega arith)
