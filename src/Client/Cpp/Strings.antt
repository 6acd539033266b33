-- ===== src/Client/Cpp/Strings.antt =====
-- C strings: bytes in front of a zero byte.
use scalable_key_value_store.Prelude.{
  ℕ, zero, suc, ◌≡◌, refl, false, some, [], ◌∷◌, ◌++◌, ◌==◌, All, take,
}
use scalable_key_value_store.Client.Cpp.{Text, CharArray, c_string}

-- No byte of the text is the given one.
abbrev pub IsFree : ℕ → Text → Type 0
IsFree delim = All (λ c. (c == delim) ≡ false)

pub snoc-IsFree :
    (delim : ℕ) (token : Text) (c : ℕ)
    → IsFree delim token
    → (c == delim) ≡ false
    → IsFree delim (token ++ c ∷ [])
snoc-IsFree delim [] c h e = (e, tt)
snoc-IsFree delim (d ∷ token) c h e = (h.0, snoc-IsFree delim token c h.1 e)

pub take-IsFree : (delim n : ℕ) (text : Text) → IsFree delim text → IsFree delim (take n text)
take-IsFree delim zero text h = tt
take-IsFree delim (suc n) [] h = tt
take-IsFree delim (suc n) (c ∷ text) h = (h.0, take-IsFree delim n text h.1)

-- What stands in front of the first zero byte is read back.
pub c_string-append :
    (text : Text) (rest : CharArray) → IsFree 0 text → c_string (text ++ 0 ∷ rest) ≡ some text
unfolding c_string
c_string-append [] rest h = refl
c_string-append (zero ∷ text) rest h = cc (h.0)
c_string-append (suc c ∷ text) rest h = rw (c_string-append text rest h.1)
