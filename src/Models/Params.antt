-- ===== src/Models/Params.antt =====
-- The parameters of a job on their way through the `params` column: json.Marshal of JobParams with
-- its `omitempty` tags, and ParseParams. The text of the JSON object is left to encoding/json and
-- PostgreSQL; here an object is its members. Texts in it are UTF-8: json.Marshal would replace other
-- bytes. ParseParams returns at once for "", "{}" and "null", which all are the object of no members.
use ilove_convertion.Base.{
  zero, suc, ◌≡◌, Bool, true, false, Option, none, some, [], ◌∷◌, ◌++◌, Str, codes, str_eq,
  if◌then◌else◌, arith,
}
use ilove_convertion.Base.Int.{ℤ, pos, negsuc}
use ilove_convertion.Models.{JobParams, JsonValue, text, number, boolean, null, JsonObject}

infixl 5 ◌>>=◌
abbrev ◌>>=◌ : {A B : Type 0} → Option A → (A → Option B) → Option B
none >>= f = none
some a >>= f = f a

abbrev pub empty_params : JobParams
empty_params = record {
  output_format = [];
  quality = pos 0;
  lossless = false;
  image_dpi = pos 0;
  image_quality = pos 0;
}

abbrev text_member : Str → Str → JsonObject
text_member k [] = []
text_member k (c ∷ s) = (k, text (c ∷ s)) ∷ []

abbrev number_member : Str → ℤ → JsonObject
number_member k (pos zero) = []
number_member k (pos (suc n)) = (k, number (pos (suc n))) ∷ []
number_member k (negsuc n) = (k, number (negsuc n)) ∷ []

abbrev boolean_member : Str → Bool → JsonObject
boolean_member k false = []
boolean_member k true = (k, boolean true) ∷ []

-- json.Marshal of a JobParams.
pub marshal : JobParams → JsonObject
marshal p =
    text_member (codes "output_format") p.output_format
    ++ (number_member (codes "quality") p.quality
        ++ (boolean_member (codes "lossless") p.lossless
            ++ (number_member (codes "image_dpi") p.image_dpi
                ++ number_member (codes "image_quality") p.image_quality)))

-- json.Unmarshal of one member into a JobParams: an unknown name is passed over, a `null` changes
-- nothing, and a value of another type is an error.
abbrev set_text : JobParams → JsonValue → Option JobParams
set_text p (text s) = some (record p { output_format = s })
set_text p null = some p
set_text p (number _) = none
set_text p (boolean _) = none

abbrev set_number : (ℤ → JobParams) → JobParams → JsonValue → Option JobParams
set_number f p (number n) = some (f n)
set_number f p null = some p
set_number f p (text _) = none
set_number f p (boolean _) = none

abbrev set_boolean : JobParams → JsonValue → Option JobParams
set_boolean p (boolean b) = some (record p { lossless = b })
set_boolean p null = some p
set_boolean p (text _) = none
set_boolean p (number _) = none

set_member : Str → JsonValue → JobParams → Option JobParams
unfolding str_eq
set_member k v p =
    if str_eq k (codes "output_format")
    then set_text p v
    else if str_eq k (codes "quality")
    then set_number (λ n. record p { quality = n }) p v
    else if str_eq k (codes "lossless")
    then set_boolean p v
    else if str_eq k (codes "image_dpi")
    then set_number (λ n. record p { image_dpi = n }) p v
    else if str_eq k (codes "image_quality")
    then set_number (λ n. record p { image_quality = n }) p v
    else some p

unmarshal : JsonObject → JobParams → Option JobParams
unmarshal [] p = some p
unmarshal ((k, v) ∷ o) p = do q ← set_member k v p; unmarshal o q

-- ParseParams; an empty object gives the zero value, as its early return does.
pub parse_params : JsonObject → Option JobParams
unfolding unmarshal
parse_params o = unmarshal o empty_params

-- What json.Marshal writes of job parameters, ParseParams reads back to the same parameters, the
-- members that `omitempty` leaves out included.
pub parse_params-marshal : (p : JobParams) → parse_params (marshal p) ≡ some p
unfolding parse_params marshal set_member
parse_params-marshal p = go p.output_format p.quality p.lossless p.image_dpi p.image_quality
  where
    go :
        (f : Str) (q : ℤ) (l : Bool) (d i : ℤ)
        → let r : JobParams = record {
          output_format = f;
          quality = q;
          lossless = l;
          image_dpi = d;
          image_quality = i;
        } in
          parse_params (marshal r) ≡ some r
    go f q l d i = ground arith
