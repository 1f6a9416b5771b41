-- ===== src/Shutdown/Draining.antt =====
-- cmd/server.go: when a node that is shutting down ends.
use ion_cluster.Base.{
  ℕ, suc, ◌≡◌, refl, ap, ◌⊎◌, inl, inr, ◌≤◌, true, List, [], ◌∷◌, ◌++◌, arith, Bool-cases,
}
use ion_cluster.Base.Int.{ℤ, pos}
use ion_cluster.Metrics.{Gauges, active_clients_count}
use ion_cluster.Shutdown.{Event, errors, signals, ticks, idle, forced, is_zero, drain, serve}

-- In the series, an event at which the loop counts finds no active client.
abbrev pub FindsNone : List (Event × Gauges) → Type 0
FindsNone l =
    (before : List (Event × Gauges)) × (e : Event) × (g : Gauges) × (after : List (Event × Gauges))
    × (l ≡ before ++ (e, g) ∷ after)
    × ((e ≡ signals) ⊎ (e ≡ ticks))
    × (active_clients_count g ≡ pos 0)

abbrev pub count_signals : List (Event × Gauges) → ℕ
count_signals [] = 0
count_signals ((signals, _) ∷ l) = suc (count_signals l)
count_signals ((errors _, _) ∷ l) = count_signals l
count_signals ((ticks, _) ∷ l) = count_signals l

is_zero-true : (z : ℤ) → is_zero z ≡ true → z ≡ pos 0
is_zero-true z h = ground arith

FindsNone-cons : (x : Event × Gauges) (l : List (Event × Gauges)) → FindsNone l → FindsNone (x ∷ l)
FindsNone-cons x l (before, e, g, after, is, counts, none) =
    (x ∷ before, e, g, after, ap (λ m. x ∷ m) is, counts, none)

FindsNone-head :
    (e : Event) (g : Gauges) (l : List (Event × Gauges))
    → (e ≡ signals) ⊎ (e ≡ ticks)
    → is_zero (active_clients_count g) ≡ true
    → FindsNone ((e, g) ∷ l)
FindsNone-head e g l counts h = ([], e, g, l, refl, counts, is_zero-true _ h)

drain-idle : (l : List (Event × Gauges)) → drain l ≡ idle → FindsNone l
unfolding drain
drain-idle [] h = absurd (ground arith)
drain-idle ((errors e, g) ∷ l) h = FindsNone-cons _ l (drain-idle l h)
drain-idle ((signals, g) ∷ l) h = absurd (ground arith)
drain-idle ((ticks, g) ∷ l) h = elim (Bool-cases (is_zero (active_clients_count g))) [
  | inl nobody ↦ FindsNone-head ticks g l (inr refl) nobody
  | inr busy ↦ FindsNone-cons _ l (drain-idle l (rw busy at h))
]

-- The loop ends as idle only at a signal or a tick at which it counts no active client.
pub serve-idle : (l : List (Event × Gauges)) → serve l ≡ idle → FindsNone l
unfolding serve
serve-idle [] h = absurd (ground arith)
serve-idle ((errors e, g) ∷ l) h = absurd (ground arith)
serve-idle ((ticks, g) ∷ l) h = FindsNone-cons _ l (serve-idle l h)
serve-idle ((signals, g) ∷ l) h = elim (Bool-cases (is_zero (active_clients_count g))) [
  | inl nobody ↦ FindsNone-head signals g l (inl refl) nobody
  | inr busy ↦ FindsNone-cons _ l (drain-idle l (rw busy at h))
]

drain-forced : (l : List (Event × Gauges)) → drain l ≡ forced → 1 ≤ count_signals l
unfolding drain
drain-forced [] h = absurd (ground arith)
drain-forced ((errors e, g) ∷ l) h = drain-forced l h
drain-forced ((signals, g) ∷ l) h = omega arith
drain-forced ((ticks, g) ∷ l) h = drain-forced l (ground arith)

-- The loop gives up on active clients only at a second signal.
pub serve-forced : (l : List (Event × Gauges)) → serve l ≡ forced → 2 ≤ count_signals l
unfolding serve
serve-forced [] h = absurd (ground arith)
serve-forced ((errors e, g) ∷ l) h = absurd (ground arith)
serve-forced ((ticks, g) ∷ l) h = serve-forced l h
serve-forced ((signals, g) ∷ l) h = omega (arith, drain-forced l (ground arith))

drain-ends :
    (l : List (Event × Gauges)) (g : Gauges) (rest : List (Event × Gauges))
    → count_signals l ≡ 0
    → active_clients_count g ≡ pos 0
    → drain (l ++ (ticks, g) ∷ rest) ≡ idle
unfolding drain
drain-ends [] g rest quiet none = ground arith
drain-ends ((errors e, h) ∷ l) g rest quiet none = drain-ends l g rest quiet none
drain-ends ((signals, h) ∷ l) g rest quiet none = absurd (omega arith)
drain-ends ((ticks, h) ∷ l) g rest quiet none = ground (arith, drain-ends l g rest quiet none)

-- After a signal, and whatever but a second signal comes before, the loop has ended as idle by the
-- first tick at which no client is active; errors of the server in between do not end it.
pub serve-ends :
    (g h : Gauges) (l rest : List (Event × Gauges))
    → count_signals l ≡ 0
    → active_clients_count h ≡ pos 0
    → serve ((signals, g) ∷ l ++ (ticks, h) ∷ rest) ≡ idle
unfolding serve
serve-ends g h l rest quiet none = ground (arith, drain-ends l h rest quiet none)
