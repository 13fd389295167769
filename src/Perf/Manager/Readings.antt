-- ===== src/Perf/Manager/Readings.antt =====
-- The samples that `read_events` returns, event by event.
use aser.Prelude.{sym, ◌∙◌, ◌⊎◌, inl, inr, suc, ◌≡◌, refl, ap, List, [], ◌∷◌, arith, length}
use aser.Outcome.{Result-cases, Result, ok, stop, Stop}
use aser.Perf.{Double, Event, EventReadMode, EventSample, EventImpl, Count, read, scale}
use aser.Perf.Manager.{EventManager, for_events, proceed, put, scale_events, read_events}

module _ {I W : Type 0} (impl : EventImpl I W) where
  -- Each event has the count that `read_count` returned for it, one call after the other, and its
  -- implementation the state after that; the rest is as before.
  abbrev WasRead : W → List (Event I) → List (Event I) → Type 0
  WasRead w [] [] = Unit
  WasRead w (e ∷ es) (e' ∷ es') =
      (c : Count) × (i : I) × (v : W) × (impl.read_count (e.impl, w) ≡ (ok c, (i, v)))
      × (e' ≡ record e { count = c; impl = i })
      × WasRead v es es'
  WasRead w (e ∷ es) [] = ⊥
  WasRead w [] (e' ∷ es') = ⊥

  read_lem :
      (e : Event I) (w : W)
      → (read impl e w).0 ≡ ok tt
      → (c : Count) × (i : I) × (impl.read_count (e.impl, w) ≡ (ok c, (i, (read impl e w).2)))
        × ((read impl e w).1 ≡ record e { count = c; impl = i })
  unfolding read
  read_lem e w h = elim (Result-cases (impl.read_count (e.impl, w)).0) [
    | inl (c, q) ↦
        let iw = (impl.read_count (e.impl, w)).1 in
        let stored : (read impl e w).2 ≡ iw.1 = rw q refl in
        (c, iw.0, ap (λ r. (r, iw)) q ∙ ap (λ v. (ok c, (iw.0, v))) (sym stored), rw q)
    | inr (x, q) ↦ absurd (ground arith)
  ]

  for_events-read :
      (es : List (Event I)) (w : W)
      → (for_events (read impl) es w).0 ≡ ok tt
      → WasRead w es (for_events (read impl) es w).1
  unfolding for_events
  for_events-read [] w h = tt
  for_events-read (e ∷ es) w h = elim (Result-cases (read impl e w).0) [
    | inl (u, q) ↦
        let (c, i, reads, same) = read_lem e w (ground arith) in
        rw (q, proceed)
          (
            c,
            i,
            (read impl e w).2,
            reads,
            same,
            for_events-read es (read impl e w).2 (ground arith),
          )
    | inr (x, q) ↦ absurd (ground arith)
  ]

module _ (double : Double) {I W : Type 0} (impl : EventImpl I W) (mode : EventReadMode) where
  open double use {Number}

  -- For each event, `read_count` has returned a count, one call after the other from the system `w` on;
  -- `v` is what `scale` returns for the event with that count, and `e'` is the event after that.
  abbrev pub Sampled : W → List (Event I) → List (Event I) → List (EventSample Number) → Type 0
  Sampled w [] [] [] = Unit
  Sampled w [] [] (v ∷ vs) = ⊥
  Sampled w (e ∷ es) (e' ∷ es') (v ∷ vs) =
      (c : Count) × (i : I) × (w₁ : W) × (impl.read_count (e.impl, w) ≡ (ok c, (i, w₁)))
      × (scale double mode (record e { count = c; impl = i }) ≡ (ok v, e'))
      × Sampled w₁ es es' vs
  Sampled w (e ∷ es) (e' ∷ es') [] = ⊥
  Sampled w (e ∷ es) [] vs = ⊥
  Sampled w [] (e' ∷ es') vs = ⊥

  scale_at :
      (a b : Event I) (v : EventSample Number)
      → a ≡ b
      → (scale double mode a).0 ≡ ok v
      → scale double mode b ≡ (ok v, (scale double mode a).1)
  scale_at a b v p h = rw (← p) (λ i. (h i, (scale double mode a).1))

  scale_events-Sampled :
      (w : W) (es rs : List (Event I)) (ss : List (EventSample Number))
      → WasRead impl w es rs
      → length ss ≡ length rs
      → (scale_events double mode rs ss).0 ≡ ok tt
      → Sampled w es (scale_events double mode rs ss).1 (scale_events double mode rs ss).2
  unfolding scale_events
  scale_events-Sampled w [] [] [] r n h = tt
  scale_events-Sampled w [] [] (s ∷ ss) r n h = absurd (omega arith)
  scale_events-Sampled w [] (e' ∷ rs) ss r n h = elim r [ ]
  scale_events-Sampled w (e ∷ es) [] ss r n h = elim r [ ]
  scale_events-Sampled w (e ∷ es) (e' ∷ rs) [] r n h = absurd (omega arith)
  scale_events-Sampled w (e ∷ es) (e' ∷ rs) (s ∷ ss) (c, i, v₁, reads, q, r) n h =
      elim (Result-cases (scale double mode e').0) [
        | inl (v, k) ↦
            rw (k, put)
              (
                c,
                i,
                v₁,
                reads,
                scale_at e' (record e { count = c; impl = i }) v q k,
                scale_events-Sampled v₁ es rs ss r (omega arith) (ground arith),
              )
        | inr (x, k) ↦ absurd (ground arith)
      ]

module _ {I W : Type 0} where
  -- A loop keeps the number of the events, also if it ends early.
  length-for_events :
      (f : Event I → W → Result (Unit {0}) × Event I × W) (es : List (Event I)) (w : W)
      → length (for_events f es w).1 ≡ length es
  unfolding for_events
  length-for_events f [] w = refl
  length-for_events f (e ∷ es) w = elim (Result-cases (f e w).0) [
    | inl (u, q) ↦ rw (q, proceed) (ap suc (length-for_events f es (f e w).2))
    | inr (x, q) ↦ rw (q, proceed)
  ]

-- One of the events has the property.
abbrev pub Some : {I : Type 0} → (Event I → Type 0) → List (Event I) → Type 0
Some P [] = ⊥
Some P (e ∷ es) = P e ⊎ Some P es

for_events-stop :
    {I W : Type 0} (f : Event I → W → Result (Unit {0}) × Event I × W) (es : List (Event I)) (w : W)
    (x : Stop)
    → (for_events f es w).0 ≡ stop x
    → Some (λ e. (v : W) × ((f e v).0 ≡ stop x)) es
unfolding for_events
for_events-stop f [] w x h = cc
for_events-stop f (e ∷ es) w x h = elim (Result-cases (f e w).0) [
  | inl (u, q) ↦ inr (for_events-stop f es (f e w).2 x (rw (q, proceed) at h))
  | inr (y, q) ↦ inl (w, q ∙ (rw (q, proceed) at h))
]

scale_events-stop :
    (double : Double) {I : Type 0} (mode : EventReadMode) (es : List (Event I))
    (ss : List (EventSample (double.Number))) (x : Stop)
    → length ss ≡ length es
    → (scale_events double mode es ss).0 ≡ stop x
    → Some (λ e. (scale double mode e).0 ≡ stop x) es
unfolding scale_events
scale_events-stop double mode [] ss x n h = cc
scale_events-stop double mode (e ∷ es) [] x n h = absurd (omega arith)
scale_events-stop double mode (e ∷ es) (s ∷ ss) x n h =
    elim (Result-cases (scale double mode e).0) [
      | inl (v, q) ↦ inr (scale_events-stop double mode es ss x (omega arith) (rw (q, put) at h))
      | inr (y, q) ↦ inl (ground arith)
    ]

module _ (double : Double) {I W : Type 0} (impl : EventImpl I W) where
  open double use {Number}

  read_events-returned :
      (mode : EventReadMode) (m m' : EventManager I Number) (w w' : W)
      (vs : List (EventSample Number))
      → length m.latest_samples ≡ length m.events
      → read_events double impl mode m w ≡ (ok vs, m', w')
      → Sampled double impl mode w m.events m'.events vs × (m'.latest_samples ≡ vs)
  unfolding read_events
  read_events-returned mode m m' w w' vs n h =
      elim (Result-cases (for_events (read impl) m.events w).0) [
        | inl (u, q) ↦
            let rs = (for_events (read impl) m.events w).1 in
            let out = scale_events double mode rs m.latest_samples in
            elim (Result-cases out.0) [
              | inl (u', k) ↦
                  let e₁ : m'.events ≡ out.1 = ground arith in
                  let e₂ : vs ≡ out.2 = ground arith in
                  (
                    rw (e₁, e₂)
                        (scale_events-Sampled double impl mode w m.events rs m.latest_samples
                          (for_events-read impl m.events w (ground arith))
                          (omega (arith, n, length-for_events (read impl) m.events w))
                          (ground arith)),
                    ground arith,
                  )
              | inr (x, k) ↦ absurd (ground arith)
            ]
        | inr (x, q) ↦ absurd (ground arith)
      ]

  -- Let the manager have one sample for each event. Either `read_events` returns, and for each event
  -- `read_count` has returned a count, in the order of the events, the sample returned for it is what
  -- `scale` makes of that count and of the event's earlier state, and the samples returned are those that the manager keeps; or it throws
  -- what the reading of one of its events has thrown, or what the scaling of one of the events has
  -- that are left by the readings.
  pub read_events-Sampled :
      (mode : EventReadMode) (m : EventManager I Number) (w : W)
      → length m.latest_samples ≡ length m.events
      → let (r, m', w') = read_events double impl mode m w in
        ((vs : List (EventSample Number)) × (r ≡ ok vs)
          × Sampled double impl mode w m.events m'.events vs
          × (m'.latest_samples ≡ vs))
        ⊎ ((x : Stop) × (r ≡ stop x)
            × (Some (λ e. (v : W) × ((read impl e v).0 ≡ stop x)) m.events
                ⊎ Some
                    (λ e. (scale double mode e).0 ≡ stop x)
                    (for_events (read impl) m.events w).1))
  unfolding read_events
  read_events-Sampled mode m w n =
      let rs = (for_events (read impl) m.events w).1 in
      let size : length m.latest_samples ≡ length rs =
        omega (arith, n, length-for_events (read impl) m.events w) in
      elim (Result-cases (for_events (read impl) m.events w).0) [
        | inr (x, q) ↦ inr (x, rw q, inl (for_events-stop (read impl) m.events w x q))
        | inl (u, q) ↦ elim (Result-cases (scale_events double mode rs m.latest_samples).0) [
          | inr (x, k) ↦
              inr (x, rw (q, k), inr (scale_events-stop double mode rs m.latest_samples x size k))
          | inl (u', k) ↦
              let vs = (scale_events double mode rs m.latest_samples).2 in
              let out = read_events double impl mode m w in
              let returns : out ≡ (ok vs, out.1, out.2) = rw (q, k) refl in
              let (sampled, kept) = read_events-returned mode m out.1 w out.2 vs n returns in
              inl (vs, rw (q, k), sampled, kept)
        ]
      ]
