-- ===== src/Config/Tests.antt =====
-- A master key at a concrete text.
use ilove_convertion.Base.{◌≡◌, ◌<◌, refl, some, Str, codes, All, length, replicate}
use ilove_convertion.Crypto.{Bytes, derive_key}
use ilove_convertion.Config.{loaded, load_key, hex_decode}
use ilove_convertion.Config.Key.{load_key-derives}

abbrev pub hex_text : Str
hex_text = replicate 64 b'1'

abbrev pub key : Bytes
key = replicate 32 17

pub hex_loaded : load_key hex_text ≡ loaded key
unfolding load_key hex_decode
hex_loaded = refl

key_example :
    (length hex_text ≡ 64)
    × (length key ≡ 32)
    × All (λ b. b < 256) key
    × (derive_key (λ a b c. b) key (codes "j1") ≡ some (codes "j1"))
key_example = load_key-derives hex_text key (λ a b c. b) (codes "j1") hex_loaded
