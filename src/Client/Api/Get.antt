-- ===== src/Client/Api/Get.antt =====
-- `kv739_get`: what the caller sees for each reply of the server.
use scalable_key_value_store.Prelude.{
  ℤ, suc, ◌≤◌, ◌≡◌, refl, true, false, Option, none, some, List, ◌∷◌, length, pos, ◌≢◌, arith,
}
use scalable_key_value_store.Client.Cpp.{
  Text, CharArray, c_string, pure, continue, Outcome, returns, throws, undefined, ◌>>=◌,
}
use scalable_key_value_store.Client.Rpc.{KvstoreResponse, Rpc}
use scalable_key_value_store.Client.Connection.{Process, deadline}
use scalable_key_value_store.Client.Api.{
  minus_one, max_copied, answer, get_request, get_value, kv739_get,
}
use scalable_key_value_store.Client.Api.Call.{call-returns, call-fails}
use scalable_key_value_store.Client.Api.Copy.{IsCopy, copy_out-IsCopy}

module _ {W S : Type 0} (rpc : Rpc W S) (s : Process W S) (stub : S) (stubs : List S)
    (bound : s.kv_client ≡ some (record { servers = stub ∷ stubs })) (key buffer : CharArray)
    (text : Text) (ended : c_string key ≡ some text) (response : KvstoreResponse) (w : W) where
  -- A value that the server found is copied: the code is 0, no byte is written behind the first
  -- 2048 of the buffer, and if the value holds no zero byte the buffer reads as its first 2047.
  pub get_found :
      rpc.contact_remote stub (get_request text) deadline s.world ≡ (returns (true, response), w)
      → response.found ≡ true
      → suc max_copied ≤ length buffer
      → (written : CharArray) × (kv739_get rpc (some key) (some buffer) s
          ≡ (returns (pos 0, some written), record s { world = w }))
        × IsCopy response.value buffer written
  unfolding kv739_get get_value answer ◌>>=◌
  get_found replied found room =
      let (written, copied, is_copy) = copy_out-IsCopy response.value buffer room in
      (
        written,
        rw (ended, kv739_get)
            (rw
              (call-returns rpc s stub stubs (get_request text) bound response w replied, kv739_get)
              (rw (found, answer) (rw (copied, answer)))),
        is_copy,
      )

  -- A key that the server does not have gives the code 1, and the buffer is as it was.
  pub get_missing :
      rpc.contact_remote stub (get_request text) deadline s.world ≡ (returns (true, response), w)
      → response.found ≡ false
      → kv739_get rpc (some key) (some buffer) s
        ≡ (returns (pos 1, some buffer), record s { world = w })
  unfolding kv739_get get_value answer ◌>>=◌
  get_missing replied missing =
      rw (ended, kv739_get)
        (rw (call-returns rpc s stub stubs (get_request text) bound response w replied, kv739_get)
          (rw (missing, answer)))

  -- A call whose status is not ok gives the code -1, and the buffer is as it was.
  pub get_failed :
      rpc.contact_remote stub (get_request text) deadline s.world ≡ (returns (false, response), w)
      → kv739_get rpc (some key) (some buffer) s
        ≡ (returns (minus_one, some buffer), record s { world = w })
  unfolding kv739_get get_value ◌>>=◌
  get_failed failed =
      rw (ended, kv739_get)
        (rw (call-fails rpc s stub stubs (get_request text) bound response w failed, kv739_get))

module _ {W S : Type 0} (rpc : Rpc W S) where
  value_kept :
      (key value written : CharArray) (s : Process W S) (code : ℤ)
      → (get_value rpc key value s).0 ≡ returns (code, written)
      → code ≢ pos 0
      → written ≡ value
  unfolding get_value answer ◌>>=◌
  value_kept key value written s code e h = ground arith

  some_kept :
      (r : Outcome (ℤ × CharArray)) (t : Process W S) (value : CharArray)
      (written : Option CharArray) (code : ℤ)
      → ((c : ℤ) (w : CharArray) → r ≡ returns (c, w) → c ≢ pos 0 → w ≡ value)
      → (continue {B = ℤ × Option CharArray} r (λ p. pure (p.0, some p.1)) t).0
        ≡ returns (code, written)
      → code ≢ pos 0
      → written ≡ some value
  unfolding pure
  some_kept (returns (c, w)) t value written code kept e h = ground (arith, kept c w refl)
  some_kept (throws x) t value written code kept e h = ground arith
  some_kept undefined t value written code kept e h = ground arith

  -- Whatever the server does, a call that returns any code but 0 leaves the buffer as it was.
  pub get_error_keeps_buffer :
      (key value written : Option CharArray) (s : Process W S) (code : ℤ)
      → (kv739_get rpc key value s).0 ≡ returns (code, written)
      → code ≢ pos 0
      → written ≡ value
  unfolding kv739_get ◌>>=◌
  get_error_keeps_buffer none value written s code e h = ground arith
  get_error_keeps_buffer (some key) none written s code e h = ground arith
  get_error_keeps_buffer (some key) (some value) written s code e h =
      some_kept _ (get_value rpc key value s).1 value written code
        (λ c w. value_kept key value w s c) e h
