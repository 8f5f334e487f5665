-- ===== src/Heartbeat/Liveness.antt =====
-- What it means in master/heartbeat.py that a worker is active.
use dip.Prelude.{
  ℕ, zero, suc, ◌+◌, ◌≡◌, refl, ap, List, [], ◌∷◌, Option, none, some, Bool, true, false, ltb, leb,
  ◌==◌, if◌then◌else◌, keep_if, arith, inl, inr, Bool-cases, ◌&&◌,
}
use dip.Heartbeat.{
  Beat, Store, update, find_beat, is_present, get_active_workers, Polled, nothing, consumer_error,
  invalid_json, heartbeat, monitor_once, monitor_heartbeats,
}

-- The timestamp of a message, if it is a heartbeat of the worker that was younger than the timeout
-- when it was handled.
abbrev pub fresh_beat : ℕ → ℕ → ℕ → Polled → Option ℕ
fresh_beat timeout w now (heartbeat (some v) (some (suc t))) =
    if w == v && ltb now (timeout + suc t) then some (suc t) else none
fresh_beat timeout w now polled = none

-- The timestamp of the last such message, or what was there before.
abbrev pub last_beat : ℕ → ℕ → List (ℕ × Polled) → Option ℕ → Option ℕ
last_beat timeout w [] before = before
last_beat timeout w ((now, polled) ∷ rounds) before =
    last_beat timeout w rounds
      (elim (fresh_beat timeout w now polled) [ none ↦ before | some t ↦ some t ])

abbrev pub is_younger : ℕ → ℕ → Option ℕ → Bool
is_younger timeout now none = false
is_younger timeout now (some t) = ltb now (timeout + t)

module _ (timeout w : ℕ) where
  -- The key of the worker is that of the given heartbeat.
  abbrev Holds : Option ℕ → Option Beat → Type 0
  Holds none o = o ≡ none
  Holds (some t) o = o ≡ some (record { last_seen = t; expires_at = timeout + t })

  monitor_once-Holds :
      (now : ℕ) (polled : Polled) (before : Option ℕ) (store : Store)
      → Holds before (store w)
      → Holds
          (elim (fresh_beat timeout w now polled) [ none ↦ before | some t ↦ some t ])
          (monitor_once timeout now polled store w)
  unfolding monitor_once update
  monitor_once-Holds now nothing before store h = h
  monitor_once-Holds now consumer_error before store h = h
  monitor_once-Holds now invalid_json before store h = h
  monitor_once-Holds now (heartbeat none t) before store h = h
  monitor_once-Holds now (heartbeat (some v) none) before store h = h
  monitor_once-Holds now (heartbeat (some v) (some zero)) before store h = h
  monitor_once-Holds now (heartbeat (some v) (some (suc t))) before store h =
      elim (Bool-cases (leb (timeout + suc t) now)) [
        | inl stale ↦
            let young : ltb now (timeout + suc t) ≡ false = ground (arith, stale) in
            elim (Bool-cases (w == v)) [
              | inl mine ↦ rw (stale, mine, young) h
              | inr other ↦ rw (stale, other) h
            ]
        | inr fresh ↦
            let young : ltb now (timeout + suc t) ≡ true = ground (arith, fresh) in
            elim (Bool-cases (w == v)) [
              | inl mine ↦
                  rw (fresh, mine, young)
                    (ap (λ x. some (record { last_seen = suc t; expires_at = x }))
                      (ground (arith, fresh)))
              | inr other ↦ rw (fresh, other) h
            ]
      ]

  monitor-Holds :
      (rounds : List (ℕ × Polled)) (before : Option ℕ) (store : Store)
      → Holds before (store w)
      → Holds (last_beat timeout w rounds before) (monitor_heartbeats timeout rounds store w)
  unfolding monitor_heartbeats
  monitor-Holds [] before store h = h
  monitor-Holds ((now, polled) ∷ rounds) before store h =
      monitor-Holds rounds _ _ (monitor_once-Holds now polled before store h)

Holds-is_younger :
    (timeout w now : ℕ) (last : Option ℕ) (o : Option Beat)
    → Holds timeout w last o
    → is_present (find_beat now o) ≡ is_younger timeout now last
Holds-is_younger timeout w now none o h = rw h refl
Holds-is_younger timeout w now (some t) o h = elim (Bool-cases (ltb now (timeout + t))) [
  | inl young ↦ rw (h, young) refl
  | inr old ↦ rw (h, old) refl
]

keep_if-same : (p q : ℕ → Bool) (ws : List ℕ) → ((w : ℕ) → p w ≡ q w) → keep_if p ws ≡ keep_if q ws
keep_if-same p q [] e = refl
keep_if-same p q (w ∷ ws) e =
    rw (e w) (ap (λ kept. if q w then w ∷ kept else kept) (keep_if-same p q ws e))

abbrev pub no_beats : Store
no_beats w = none

-- Whatever messages are handled, old ones that are replayed among them, the workers that are active
-- at a time are exactly those whose last heartbeat, of those that were younger than the timeout
-- when they were handled, is younger than the timeout still.
pub get_active_workers-last_beat :
    (timeout now : ℕ) (rounds : List (ℕ × Polled)) (workers : List ℕ)
    → get_active_workers now workers (monitor_heartbeats timeout rounds no_beats)
      ≡ keep_if (λ w. is_younger timeout now (last_beat timeout w rounds none)) workers
unfolding get_active_workers
get_active_workers-last_beat timeout now rounds workers = keep_if-same _ _ workers (λ w.
    Holds-is_younger timeout w now (last_beat timeout w rounds none) _
      (monitor-Holds timeout w rounds none no_beats refl))
