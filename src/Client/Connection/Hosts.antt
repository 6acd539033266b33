-- ===== src/Client/Connection/Hosts.antt =====
-- The host list that the constructor of `KvstoreRPCClient` reads.
use scalable_key_value_store.Prelude.{
  ℕ, ◌≡◌, ap, sym, ◌∙◌, List, [], ◌∷◌, ◌++◌, ◌==◌, All, Bool-cases, inl, inr, ==_refl,
}
use mathlib.Core.List.{append-nil, append_assoc}
use scalable_key_value_store.Client.Cpp.{Text}
use scalable_key_value_store.Client.Cpp.Strings.{IsFree, snoc-IsFree}
use scalable_key_value_store.Client.Connection.{tokens_from, last_token, host_addrs, semicolon}

-- Every host with the delimiter behind it.
abbrev pub terminated : List Text → Text
terminated [] = []
terminated (host ∷ hosts) = host ++ semicolon ∷ terminated hosts

tokens_from-append :
    (delim : ℕ) (token host rest : Text)
    → IsFree delim host
    → tokens_from delim token (host ++ rest) ≡ tokens_from delim (token ++ host) rest
unfolding tokens_from
tokens_from-append delim token [] rest h = rw append-nil
tokens_from-append delim token (c ∷ host) rest h = rw h.0 (
    tokens_from-append delim (token ++ c ∷ []) host rest h.1
    ∙ ap (λ t. tokens_from delim t rest) (append_assoc token (c ∷ []) host))

tokens_from-delim :
    (delim : ℕ) (token rest : Text)
    → tokens_from delim token (delim ∷ rest) ≡ token ∷ tokens_from delim [] rest
unfolding tokens_from
tokens_from-delim delim token rest = rw ==_refl

tokens_from-last :
    (last : Text) → IsFree semicolon last → tokens_from semicolon [] last ≡ last_token last
unfolding tokens_from
tokens_from-last last h =
    ap (tokens_from semicolon []) (sym (append-nil last))
    ∙ tokens_from-append semicolon [] last [] h

-- Hosts that are separated by `;` are read back in order, and a last host that is not empty needs
-- no `;` behind it.
pub host_addrs-terminated :
    (hosts : List Text) (last : Text)
    → All (IsFree semicolon) hosts
    → IsFree semicolon last
    → host_addrs (terminated hosts ++ last) ≡ hosts ++ last_token last
unfolding host_addrs
host_addrs-terminated [] last hs h = tokens_from-last last h
host_addrs-terminated (host ∷ hosts) last hs h =
    ap (tokens_from semicolon []) (append_assoc host (semicolon ∷ terminated hosts) last)
    ∙ tokens_from-append semicolon [] host (semicolon ∷ (terminated hosts ++ last)) hs.0
    ∙ tokens_from-delim semicolon host (terminated hosts ++ last)
    ∙ ap (◌∷◌ host) (host_addrs-terminated hosts last hs.1 h)

last_token-IsFree :
    (delim : ℕ) (token : Text) → IsFree delim token → All (IsFree delim) (last_token token)
last_token-IsFree delim [] h = tt
last_token-IsFree delim (c ∷ token) h = (h, tt)

tokens_from-IsFree :
    (delim : ℕ) (token rest : Text)
    → IsFree delim token
    → All (IsFree delim) (tokens_from delim token rest)
unfolding tokens_from
tokens_from-IsFree delim token [] h = last_token-IsFree delim token h
tokens_from-IsFree delim token (c ∷ rest) h = elim (Bool-cases (c == delim)) [
  | inl e ↦ rw e (h, tokens_from-IsFree delim [] rest tt)
  | inr e ↦ rw e (tokens_from-IsFree delim (token ++ c ∷ []) rest (snoc-IsFree delim token c h e))
]

-- No host that is read holds a `;`.
pub host_addrs-IsFree : (hosts : Text) → All (IsFree semicolon) (host_addrs hosts)
unfolding host_addrs
host_addrs-IsFree hosts = tokens_from-IsFree semicolon [] hosts tt
