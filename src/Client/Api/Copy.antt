-- ===== src/Client/Api/Copy.antt =====
-- How a reply is copied into the caller's buffer.
use scalable_key_value_store.Prelude.{
  ℕ, suc, ◌+◌, ◌-◌, ◌≤◌, ◌<◌, ◌≡◌, ap, sym, ◌∙◌, some, ◌∷◌, arith, ltb, ltb→le, Bool-cases, inl,
  inr, length, length-append, length-take, length-drop, take, drop, take-ge, take-length,
  drop-append, drop-drop, if◌then◌else◌, lt→ltb,
}
use scalable_key_value_store.Client.Cpp.{Text, CharArray, c_string}
use scalable_key_value_store.Client.Cpp.Strings.{IsFree, take-IsFree, c_string-append}
use scalable_key_value_store.Client.Api.{max_copied, num_bytes, overwrite, copy_out}

module _ (n : ℕ) (text : Text) (buffer : CharArray) where
  length-overwrite :
      n ≤ length text → n < length buffer → length (overwrite n text buffer) ≡ length buffer
  unfolding overwrite
  length-overwrite h room = omega (
    arith,
    length-append (take n text) (0 ∷ drop (n + 1) buffer),
    length-take n text,
    length-drop (n + 1) buffer,
  )

  drop-overwrite :
      (m : ℕ) → n ≤ length text → n < m → drop m (overwrite n text buffer) ≡ drop m buffer
  unfolding overwrite
  drop-overwrite m h above =
      drop-append (take n text) (0 ∷ drop (n + 1) buffer) m (omega (arith, length-take n text))
      ∙ ap (λ k. drop k (0 ∷ drop (n + 1) buffer)) gap
      ∙ drop-drop (m - n - 1) (n + 1) buffer
      ∙ ap (λ k. drop k buffer) whole
    where
      gap : m - length (take n text) ≡ suc (m - n - 1)
      gap = omega (arith, length-take n text)

      whole : n + 1 + (m - n - 1) ≡ m
      whole = omega arith

  c_string-overwrite : IsFree 0 text → c_string (overwrite n text buffer) ≡ some (take n text)
  unfolding overwrite
  c_string-overwrite free = c_string-append (take n text) _ (take-IsFree 0 n text free)

take_clamped :
    (cap : ℕ) (text : Text)
    → take (if ltb cap (length text) then cap else length text) text ≡ take cap text
take_clamped cap text = elim (Bool-cases (ltb cap (length text))) [
  | inl e ↦ rw e
  | inr e ↦ rw e (take-length text ∙ sym (take-ge cap text (ltb→le cap (length text) e)))
]

take-num_bytes : (text : Text) → take (num_bytes (length text)) text ≡ take max_copied text
unfolding num_bytes
take-num_bytes text = take_clamped max_copied text

num_bytes-le : (n : ℕ) → num_bytes n ≤ n
unfolding num_bytes
num_bytes-le n = ground arith

num_bytes-lt : (n : ℕ) → num_bytes n < suc max_copied
unfolding num_bytes
num_bytes-lt n = ground arith

-- the copy of a text, in a buffer of the documented size
pub record IsCopy (text : Text) (buffer written : CharArray) : Type 0 where
  pub size : length written ≡ length buffer
  pub beyond : drop (suc max_copied) written ≡ drop (suc max_copied) buffer
  pub reads : IsFree 0 text → c_string written ≡ some (take max_copied text)

pub copy_out-IsCopy :
    (text : Text) (buffer : CharArray)
    → suc max_copied ≤ length buffer
    → (written : CharArray) × (copy_out text buffer ≡ some written) × IsCopy text buffer written
unfolding copy_out
copy_out-IsCopy text buffer room =
    let n = num_bytes (length text) in
    let short : n ≤ length text = num_bytes-le (length text) in
    let low : n < suc max_copied = num_bytes-lt (length text) in
    let fits : n < length buffer = omega arith in
    (
      overwrite n text buffer,
      rw (lt→ltb n (length buffer) fits, copy_out),
      record {
        size = length-overwrite n text buffer short fits;
        beyond = drop-overwrite n text buffer (suc max_copied) short low;
        reads = λ free. c_string-overwrite n text buffer free ∙ ap some (take-num_bytes text);
      },
    )
