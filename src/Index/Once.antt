-- ===== src/Index/Once.antt =====
-- app/rag/ingestion/embedder.py: the threads load one model at most, and share it.
use rag_semantic_search.Prelude.{
  ℕ, ◌+◌, ◌≤◌, ◌≡◌, ◌≢◌, refl, sym, ap, ◌∙◌, subst, inl, inr, Bool, true, false, not, ◌&&◌, Option,
  none, some, ◌==◌, arith, Bool-cases,
}
use rag_semantic_search.Index.Model.{
  Place, outside, first_test, waiting, second_test, loading, leaving, returning, returned, Loader,
  move, Access, calls, calls_again, finds_model, finds_none, acquires, finds_model_locked,
  finds_none_locked, loads, load_raises, releases, returns, Loading, start, after,
}

-- What holds of a thread i at its place.
abbrev Fits : Option ℕ → Option ℕ → ℕ → Place → Type 0
Fits model holder i outside = Unit {0}
Fits model holder i first_test = Unit {0}
Fits model holder i waiting = Unit {0}
Fits model holder i second_test = holder ≡ some i
Fits model holder i loading = (holder ≡ some i) × (model ≡ none)
Fits model holder i leaving = (holder ≡ some i) × (model ≡ some 0)
Fits model holder i returning = model ≡ some 0
Fits model holder i (returned m) = m ≡ some 0

-- No model is loaded, or one.
abbrev Counted : Option ℕ → ℕ → Type 0
Counted none n = n ≡ 0
Counted (some m) n = (m ≡ 0) × (n ≡ 1)

record Shared (l : Loader) : Type 0 where
  pub counted : Counted l.model l.loads
  pub fits : (i : ℕ) → Fits l.model l.holder i (l.place i)

-- What holds of a thread that has not got the lock holds of it also after another one's step.
other-Fits :
    (model model' holder holder' : Option ℕ) (j : ℕ) (p : Place)
    → holder ≢ some j
    → (model ≡ some 0 → model' ≡ some 0)
    → Fits model holder j p
    → Fits model' holder' j p
other-Fits model model' holder holder' j outside free kept h = tt
other-Fits model model' holder holder' j first_test free kept h = tt
other-Fits model model' holder holder' j waiting free kept h = tt
other-Fits model model' holder holder' j second_test free kept h = absurd (free h)
other-Fits model model' holder holder' j loading free kept h = absurd (free h.0)
other-Fits model model' holder holder' j leaving free kept h = absurd (free h.0)
other-Fits model model' holder holder' j returning free kept h = kept h
other-Fits model model' holder holder' j (returned m) free kept h = h

module _ (l : Loader) (i : ℕ) (p : Place) (h : Shared l) where
  -- A thread goes to another place, and nothing else changes.
  move-Shared : Fits l.model l.holder i p → Shared (move l i p)
  move-Shared here = record {
    counted = h.counted;
    fits = λ j. elim (Bool-cases (j == i)) [
      | inl same ↦
          let e : j ≡ i = ground arith in
          rw same (subst (λ k. Fits l.model l.holder k p) (sym e) here)
      | inr other ↦ rw other (h.fits j)
    ];
  }

  -- The thread changes the model or the lock besides, which no other thread holds.
  change-Shared :
      (model : Option ℕ) (count : ℕ) (holder : Option ℕ)
      → Counted model count
      → Fits model holder i p
      → (l.model ≡ some 0 → model ≡ some 0)
      → ((j : ℕ) → j ≢ i → l.holder ≢ some j)
      → Shared (move (record l { model = model; loads = count; holder = holder }) i p)
  change-Shared model count holder counted here kept free = record {
    counted = counted;
    fits = λ j. elim (Bool-cases (j == i)) [
      | inl same ↦
          let e : j ≡ i = ground arith in rw same (subst (λ k. Fits model holder k p) (sym e) here)
      | inr other ↦
          let ne : j ≢ i = λ e. ground (arith, e) in
          rw other
            (other-Fits l.model model l.holder holder j (l.place j) (free j ne) kept (h.fits j))
    ];
  }

-- What holds of a thread at the place where it is.
at : (l : Loader) (i : ℕ) (p : Place) → Shared l → l.place i ≡ p → Fits l.model l.holder i p
at l i p h e = subst (Fits l.model l.holder i) e (h.fits i)

held_by : (l : Loader) (i : ℕ) → l.holder ≡ some i → (j : ℕ) → j ≢ i → l.holder ≢ some j
held_by l i e j ne f = ne (ground (arith, sym f ∙ e))

model_zero : (l : Loader) (m : ℕ) → Shared l → l.model ≡ some m → l.model ≡ some 0
model_zero l m h e =
    let counted = subst (λ o. Counted o l.loads) e h.counted in e ∙ ap some counted.0

Access-Shared : (l m : Loader) → Access l m → Shared l → Shared m
Access-Shared l _ (calls i e) h = move-Shared l i first_test h tt
Access-Shared l _ (calls_again i m e) h = move-Shared l i first_test h tt
Access-Shared l _ (finds_model i m e f) h = move-Shared l i returning h (model_zero l m h f)
Access-Shared l _ (finds_none i e f) h = move-Shared l i waiting h tt
Access-Shared l _ (acquires i e f) h =
    change-Shared l i second_test h l.model l.loads (some i) h.counted refl (λ z. z)
      (λ j ne g. ground (arith, f, g))
Access-Shared l _ (finds_model_locked i m e f) h =
    move-Shared l i leaving h (at l i second_test h e, model_zero l m h f)
Access-Shared l _ (finds_none_locked i e f) h =
    move-Shared l i loading h (at l i second_test h e, f)
Access-Shared l _ (loads i e) h =
    let (held, fresh) = at l i loading h e in
    let none_yet : l.loads ≡ 0 = subst (λ o. Counted o l.loads) fresh h.counted in
    change-Shared l i leaving h (some l.loads) (l.loads + 1) l.holder
      (none_yet, omega (arith, none_yet)) (held, ap some none_yet) (λ z. ground (arith, z, fresh))
      (held_by l i held)
Access-Shared l _ (load_raises i e) h =
    change-Shared l i outside h l.model l.loads none h.counted tt (λ z. z)
      (held_by l i (at l i loading h e).0)
Access-Shared l _ (releases i e) h =
    let (held, there) = at l i leaving h e in
    change-Shared l i returning h l.model l.loads none h.counted there (λ z. z) (held_by l i held)
Access-Shared l _ (returns i e) h = move-Shared l i (returned l.model) h (at l i returning h e)

Loading-Shared : (l : Loader) → Loading l → Shared l
Loading-Shared _ start = record { counted = refl; fits = λ i. tt }
Loading-Shared _ (after {l} {m} before step) = Access-Shared l m step (Loading-Shared l before)

loads-le : (model : Option ℕ) (n : ℕ) → Counted model n → n ≤ 1
loads-le none n h = omega (arith, h)
loads-le (some m) n h = omega (arith, h.1)

-- A call that has returned has given the first model.
abbrev pub IsShared : Place → Type 0
IsShared outside = Unit {0}
IsShared first_test = Unit {0}
IsShared waiting = Unit {0}
IsShared second_test = Unit {0}
IsShared loading = Unit {0}
IsShared leaving = Unit {0}
IsShared returning = Unit {0}
IsShared (returned m) = m ≡ some 0

-- A thread between the acquisition of the lock and its release.
abbrev pub is_locked : Place → Bool
is_locked outside = false
is_locked first_test = false
is_locked waiting = false
is_locked second_test = true
is_locked loading = true
is_locked leaving = true
is_locked returning = false
is_locked (returned m) = false

Fits-IsShared : (model holder : Option ℕ) (i : ℕ) (p : Place) → Fits model holder i p → IsShared p
Fits-IsShared model holder i outside h = tt
Fits-IsShared model holder i first_test h = tt
Fits-IsShared model holder i waiting h = tt
Fits-IsShared model holder i second_test h = tt
Fits-IsShared model holder i loading h = tt
Fits-IsShared model holder i leaving h = tt
Fits-IsShared model holder i returning h = tt
Fits-IsShared model holder i (returned m) h = h

Fits-locked :
    (model holder : Option ℕ) (i : ℕ) (p : Place)
    → is_locked p ≡ true
    → Fits model holder i p
    → holder ≡ some i
Fits-locked model holder i outside t h = absurd (ground (arith, t))
Fits-locked model holder i first_test t h = absurd (ground (arith, t))
Fits-locked model holder i waiting t h = absurd (ground (arith, t))
Fits-locked model holder i second_test t h = h
Fits-locked model holder i loading t h = h.0
Fits-locked model holder i leaving t h = h.0
Fits-locked model holder i returning t h = absurd (ground (arith, t))
Fits-locked model holder i (returned m) t h = absurd (ground (arith, t))

-- Two threads at their places are not both between the acquisition and the release.
apart :
    (model holder : Option ℕ) (i j : ℕ) (p q : Place)
    → Fits model holder i p
    → Fits model holder j q
    → (is_locked p && is_locked q && not (i == j)) ≡ false
apart model holder i j p q h g = elim (Bool-cases (is_locked p)) [
  | inr out ↦ rw out refl
  | inl t ↦ elim (Bool-cases (is_locked q)) [
    | inr out ↦ rw (t, out) refl
    | inl u ↦
        let e : holder ≡ some i = Fits-locked model holder i p t h in
        let f : holder ≡ some j = Fits-locked model holder j q u g in ground (arith, e, f)
  ]
]

-- However the threads that call `get_model` interleave, and also where loading raises, one model is
-- loaded at most, each call that has returned has given that one, and no two threads are between the
-- acquisition of the lock and its release.
pub Loading-once :
    (l : Loader) (i j : ℕ)
    → Loading l
    → (l.loads ≤ 1)
      × IsShared (l.place i)
      × ((is_locked (l.place i) && is_locked (l.place j) && not (i == j)) ≡ false)
Loading-once l i j before =
    let h = Loading-Shared l before in
    (
      loads-le l.model l.loads h.counted,
      Fits-IsShared l.model l.holder i (l.place i) (h.fits i),
      apart l.model l.holder i j (l.place i) (l.place j) (h.fits i) (h.fits j),
    )
