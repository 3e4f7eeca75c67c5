-- ===== src/Crypto/Io.antt =====
-- What the reads and writes of the loops do where nothing fails.
use ilove_convertion.Base.{
  ℕ, ◌-◌, ◌≤◌, ◌<◌, ◌≡◌, true, false, [], ◌∷◌, ◌++◌, append_assoc, append-nil, length,
  length-append, take-append_left, drop-append_left, arith, le→leb, lt→leb,
}
use ilove_convertion.Crypto.{Bytes, Source, Sink, write, filled, eof, unexpected_eof, read_full}

-- The sink after a write that it took.
abbrev pub advance : Sink → Bytes → Sink
advance d bs = record d { written = d.written ++ bs; room = d.room - length bs }

abbrev pub source : Bytes → Source
source bs = record { content = bs; fails = false }

pub write_fits : (d : Sink) (bs : Bytes) → length bs ≤ d.room → write d bs ≡ (advance d bs, true)
unfolding write
write_fits d bs h = rw (le→leb (length bs) d.room h)

pub advance_nil : (d : Sink) → advance d [] ≡ d
advance_nil d = ground (arith, append-nil d.written)

pub advance-append : (d : Sink) (x y : Bytes) → advance (advance d x) y ≡ advance d (x ++ y)
advance-append d x y = ground (arith, append_assoc d.written x y, length-append x y)

pub read_exact :
    (n : ℕ) (x y : Bytes) → length x ≡ n → read_full n (source (x ++ y)) ≡ (x, filled, source y)
unfolding read_full
read_exact n x y h = rw (
  le→leb n (length (x ++ y)) (omega (arith, length-append {0} x y)),
  take-append_left n x y h,
  drop-append_left n x y h,
)

pub read_short :
    (n : ℕ) (x : Bytes)
    → 0 < length x
    → length x < n
    → read_full n (source x) ≡ (x, unexpected_eof, source [])
unfolding read_full
read_short n [] p h = absurd (omega arith)
read_short n (b ∷ x) p h = rw (lt→leb n (length (b ∷ x)) h)

pub read_nothing : (n : ℕ) → 0 < n → read_full n (source []) ≡ ([], eof, source [])
unfolding read_full
read_nothing n h = rw (lt→leb n 0 h)
