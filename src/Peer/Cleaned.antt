-- ===== src/Peer/Cleaned.antt =====
-- HW1/p2p.py: what `clean_tasks` lets through.
use data_communication.Prelude.{
  ℕ, suc, ◌≤◌, ◌≡◌, refl, ap₂, subst, ◌∙◌, false, ◌||◌, not, Option, some, List, [], ◌∷◌, ◌⊎◌, inl,
  inr, map, length, All, get_or, ◌==◌, Bool-cases, arith,
}
use data_communication.Wire.Text.{Text, any_of}
use data_communication.Peer.Values.{Value, null, text, P2pError, read_clock, ◌>>=◌}
use data_communication.Peer.Clean.{
  RawTask, no_dict, dict, CleanTask, is_hex, upper, clean_key, clean_value, clean_attempt,
  clean_waiting, clean_retry, is_known, clean_task, clean_all,
}

pub bound :
    {A B : Type 0} (m : P2pError ⊎ A) (f : A → P2pError ⊎ B) {b : B}
    → (m >>= f) ≡ inr b
    → (a : A) × (m ≡ inr a) × (f a ≡ inr b)
bound (inl e) f h = cc
bound (inr a) f h = (a, refl, h)

-- A key of four hexadecimal digits in upper case.
abbrev pub IsKey : Text → Type 0
IsKey k = (length k ≡ 4) × (any_of (λ c. not (is_hex c)) k ≡ false) × (map upper k ≡ k)

abbrev pub IsCleanTask : CleanTask → Type 0
IsCleanTask t = IsKey t.key × (1 ≤ t.value) × (t.value ≤ 100) × (1 ≤ t.attempt)

-- No key and attempt stand twice in the list, and none of them is among the `identities`.
abbrev pub Distinct : List (Text × ℕ) → List CleanTask → Type 0
Distinct identities [] = Unit
Distinct identities (t ∷ ts) =
    (is_known t.key t.attempt identities ≡ false) × Distinct ((t.key, t.attempt) ∷ identities) ts

length-upper : (k : Text) → length (map upper k) ≡ length k
length-upper [] = refl
length-upper (c ∷ k) = omega (arith, length-upper k)

hex-upper :
    (k : Text)
    → any_of (λ c. not (is_hex c)) k ≡ false
    → any_of (λ c. not (is_hex c)) (map upper k) ≡ false
hex-upper [] h = refl
hex-upper (c ∷ k) h = ground (arith, hex-upper k)

upper_twice : (k : Text) → map upper (map upper k) ≡ map upper k
upper_twice [] = refl
upper_twice (c ∷ k) = ap₂ {C = Text} (λ x r. x ∷ r) (ground arith) (upper_twice k)

clean_key-IsKey : (o : Option Value) (k : Text) → clean_key o ≡ inr k → IsKey k
unfolding clean_key
clean_key-IsKey (some (text t)) k h =
    elim (Bool-cases (not (length t == 4) || any_of (λ c. not (is_hex c)) t)) [
      | inl bad ↦ ground (arith, h, bad)
      | inr fine ↦
          let e : map upper t ≡ k = ground (arith, h, fine) in
          subst IsKey e (
            length-upper t ∙ ground (arith, fine),
            hex-upper t (ground (arith, fine)),
            upper_twice t,
          )
    ]
clean_key-IsKey _ k h = ground arith

clean_value_bounds : (o : Option Value) (n : ℕ) → clean_value o ≡ inr n → (1 ≤ n) × (n ≤ 100)
unfolding clean_value
clean_value_bounds o n h = ground arith

clean_attempt_bounds : (o : Option Value) (n : ℕ) → clean_attempt o ≡ inr n → 1 ≤ n
unfolding clean_attempt
clean_attempt_bounds o n h = ground arith

clean_task-IsCleanTask :
    (identities : List (Text × ℕ)) (raw : RawTask) (t : CleanTask)
    → clean_task identities raw ≡ inr t
    → IsCleanTask t × (is_known t.key t.attempt identities ≡ false)
unfolding clean_task
clean_task-IsCleanTask identities no_dict t h = cc
clean_task-IsCleanTask identities (dict f) t h =
    let (k, k_ok, h1) = bound (clean_key f.key) _ h in
    let (v, v_ok, h2) = bound (clean_value f.value) _ h1 in
    let (a, a_ok, h3) = bound (clean_attempt f.attempt) _ h2 in
    let (at, at_ok, h4) = bound (read_clock (get_or f.enqueued_at null)) _ h3 in
    let (w, w_ok, h5) = bound (clean_waiting f.accumulated_waiting_time) _ h4 in
    let (r, r_ok, h6) = bound (clean_retry f.failed_retry) _ h5 in
    let key_ok = clean_key-IsKey f.key k k_ok in
    let value_ok = clean_value_bounds f.value v v_ok in
    let attempt_ok = clean_attempt_bounds f.attempt a a_ok in
    elim (Bool-cases (is_known k a identities)) [
      | inl known ↦ ground (arith, h6, known)
      | inr fresh ↦
          let made : CleanTask = record {
            key = k;
            value = v;
            attempt = a;
            enqueued_at = at;
            accumulated_waiting_time = w;
            failed_retry = r;
          } in
          let e : made ≡ t = ground (arith, h6, fresh) in
          subst (λ u. IsCleanTask u × (is_known u.key u.attempt identities ≡ false)) e
            ((key_ok, value_ok.0, value_ok.1, attempt_ok), fresh)
    ]

abbrev pub AreClean : List (Text × ℕ) → List CleanTask → Type 0
AreClean identities ts = All IsCleanTask ts × Distinct identities ts

pub clean_all-AreClean :
    (identities : List (Text × ℕ)) (raws : List RawTask) (ts : List CleanTask)
    → clean_all identities raws ≡ inr ts
    → AreClean identities ts × (length ts ≡ length raws)
unfolding clean_all
clean_all-AreClean identities [] [] h = ((tt, tt), refl)
clean_all-AreClean identities [] (t ∷ ts) h = ground arith
clean_all-AreClean identities (raw ∷ raws) out h =
    let (t, t_ok, h1) = bound (clean_task identities raw) _ h in
    let (ts, ts_ok, h2) = bound (clean_all ((t.key, t.attempt) ∷ identities) raws) _ h1 in
    let one = clean_task-IsCleanTask identities raw t t_ok in
    let all = clean_all-AreClean ((t.key, t.attempt) ∷ identities) raws ts ts_ok in
    let e : t ∷ ts ≡ out = ground (arith, h2) in
    subst (λ us. AreClean identities us × (length us ≡ suc (length raws))) e
      (((one.0, all.0.0), (one.1, all.0.1)), omega (arith, all.1))
