-- ===== src/Listener/Leader/Fetch.antt =====
-- `HeliusLeaderResolver::fetch_window` of crates/listener/src/leader.rs.
--
-- The node's answer to `getSlotLeaders`, serde_json's values and Base58 are arguments.
use lattica.Prelude.{
  ℕ, Option, none, some, List, [], ◌∷◌, ◌==◌, ==_iff, if◌then◌else◌, length, ◌≡◌, refl, sym, ap,
  subst, ◌∙◌, inl, inr, Bool-cases,
}
use lattica.Prelude.Bytes.{Bytes}
use lattica.Prelude.Outcome.{Outcome, ok, err, panic, ◌>>=◌, >>=-eq-ok}
use lattica.Prelude.Machine.{ascii}
use lattica.Prelude.Json.{Json, Failure}
use lattica.Listener.Leader.{FetchWindow}

pub data FetchError : Type 0 where
  call_failed : Failure → FetchError
  rpc_error : FetchError
  result_not_array : FetchError
  leader_not_string : FetchError
  leader_base58 : FetchError
  leader_not_32_bytes : FetchError

-- `ok_or_else`
abbrev pub ok_or_else {ℓ} : {A : Type ℓ} → Option A → FetchError → Outcome FetchError A
ok_or_else none e = err e
ok_or_else (some a) e = ok a

-- The two `?` before there is a value.
abbrev pub sent {ℓ} : {V : Type ℓ} → Outcome Failure V → Outcome FetchError V
sent (ok v) = ok v
sent (err e) = err (call_failed e)
sent panic = panic

abbrev pub without_error {ℓ} : {V : Type ℓ} → Option V → V → Outcome FetchError V
without_error none resp = ok resp
without_error (some e) resp = err rpc_error

ok_or_else-some :
    {A : Type 0} (o : Option A) (e : FetchError) (a : A) → ok_or_else o e ≡ ok a → o ≡ some a
ok_or_else-some none e a h = cc
ok_or_else-some (some b) e a h = let same : b ≡ a = cc in ap some same

without_error-ok :
    {V : Type 0} (o : Option V) (v w : V) → without_error o v ≡ ok w → (o ≡ none) × (v ≡ w)
without_error-ok none v w h = (refl, cc)
without_error-ok (some e) v w h = cc

checked_length :
    (bytes pk : Bytes)
    → (if length bytes == 32 then ok bytes else err leader_not_32_bytes) ≡ ok pk
    → (bytes ≡ pk) × (length bytes ≡ 32)
checked_length bytes pk h = elim (Bool-cases (length bytes == 32)) [
  | inl e ↦
      let same : ◌≡◌ {A = Outcome FetchError Bytes} (ok bytes) (ok pk) = rw e at h in
      (cc, (==_iff (length bytes) 32).0 e)
  | inr e ↦
      let differ : ◌≡◌ {A = Outcome FetchError Bytes} (err leader_not_32_bytes) (ok pk) =
        rw e at h in
      cc
]

module _ (j : Json) (b58 : Bytes → Option Bytes) where
  -- The body of the loop.
  unfoldable pub decode_leader : j.Value → Outcome FetchError Bytes
  decode_leader v = do
    s ← ok_or_else (j.as_str v) leader_not_string
    bytes ← ok_or_else (b58 s) leader_base58
    if length bytes == 32 then ok bytes else err leader_not_32_bytes

  unfoldable pub decode_leaders : List j.Value → Outcome FetchError (List Bytes)
  decode_leaders [] = ok []
  decode_leaders (v ∷ vs) = do pk ← decode_leader v; rest ← decode_leaders vs; ok (pk ∷ rest)

  unfoldable pub fetch_window : Outcome Failure j.Value → Outcome FetchError (List Bytes)
  fetch_window response = do
    resp ← sent response
    resp ← without_error (j.get resp (ascii "error")) resp
    arr ← ok_or_else (j.as_array (j.field resp (ascii "result"))) result_not_array
    decode_leaders arr

  -- The value is a string, and the leader is what it stands for.
  abbrev pub IsLeaderOf : j.Value → Bytes → Type 0
  IsLeaderOf v pk = (s : Bytes) × (j.as_str v ≡ some s) × (b58 s ≡ some pk) × (length pk ≡ 32)

  -- One leader for each value, in order.
  abbrev pub AreLeadersOf : List j.Value → List Bytes → Type 0
  AreLeadersOf [] [] = Unit
  AreLeadersOf [] (pk ∷ pks) = ⊥
  AreLeadersOf (v ∷ vs) [] = ⊥
  AreLeadersOf (v ∷ vs) (pk ∷ pks) = IsLeaderOf v pk × AreLeadersOf vs pks

  decode_leader-IsLeaderOf : (v : j.Value) (pk : Bytes) → decode_leader v ≡ ok pk → IsLeaderOf v pk
  unfolding decode_leader
  decode_leader-IsLeaderOf v pk h =
      let (s, text, rest) = >>=-eq-ok (ok_or_else (j.as_str v) leader_not_string) _ h in
      let (bytes, decoded, checked) = >>=-eq-ok (ok_or_else (b58 s) leader_base58) _ rest in
      let (same, size) = checked_length bytes pk checked in
      (
        s,
        ok_or_else-some (j.as_str v) leader_not_string s text,
        ok_or_else-some (b58 s) leader_base58 bytes decoded ∙ ap some same,
        ap length (sym same) ∙ size,
      )

  decode_leaders-AreLeadersOf :
      (vs : List j.Value) (pks : List Bytes) → decode_leaders vs ≡ ok pks → AreLeadersOf vs pks
  unfolding decode_leaders
  decode_leaders-AreLeadersOf [] [] h = tt
  decode_leaders-AreLeadersOf [] (pk ∷ pks) h = cc
  decode_leaders-AreLeadersOf (v ∷ vs) pks h =
      let (pk, one, more) = >>=-eq-ok (decode_leader v) _ h in
      let (rest, others, whole) = >>=-eq-ok (decode_leaders vs) _ more in
      let same : pk ∷ rest ≡ pks = cc in
      subst (AreLeadersOf (v ∷ vs)) same
        (decode_leader-IsLeaderOf v pk one, decode_leaders-AreLeadersOf vs rest others)

  -- Leaders are returned only for an answer that is no error, whose result is an array of that many
  -- strings: the Base58 texts of the leaders, in order, each of 32 bytes.
  pub fetch_window-AreLeadersOf :
      (resp : j.Value) (pks : List Bytes)
      → fetch_window (ok resp) ≡ ok pks
      → (j.get resp (ascii "error") ≡ none)
        × ((vs : List j.Value) × (j.as_array (j.field resp (ascii "result")) ≡ some vs)
            × AreLeadersOf vs pks)
  unfolding fetch_window
  fetch_window-AreLeadersOf resp pks h =
      let (shown, clean, rest) = >>=-eq-ok (without_error (j.get resp (ascii "error")) resp) _ h in
      let (no_error, same) = without_error-ok (j.get resp (ascii "error")) resp shown clean in
      let (vs, array, leaders) =
        >>=-eq-ok (ok_or_else (j.as_array (j.field shown (ascii "result"))) result_not_array) _
          rest in
      (
        no_error,
        (
          vs,
          ap (λ v. j.as_array (j.field v (ascii "result"))) same
              ∙ ok_or_else-some _ result_not_array vs array,
          decode_leaders-AreLeadersOf vs pks leaders,
        ),
      )

-- `fetch_window` of a call `rpc`, for the cache: the error is printed there and dropped.
abbrev pub window_of :
    (j : Json)
    → (Bytes → Option Bytes)
    → ((start count : ℕ) → Outcome Failure j.Value)
    → FetchWindow
window_of j b58 rpc start count = elim (fetch_window j b58 (rpc start count)) [
  | ok pks ↦ some pks
  | err e ↦ none
  | panic ↦ none
]
