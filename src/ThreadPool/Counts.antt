-- ===== src/ThreadPool/Counts.antt =====
-- Workers counted by weights.
use c_framework_to_server.Base.{
  ℕ, zero, suc, ◌+◌, ◌≤◌, ◌≡◌, refl, some, List, [], ◌∷◌, get_elem?, set, replicate, arith, ◌⊎◌,
  inl, inr, ◌≢◌,
}
use c_framework_to_server.ThreadPool.{Worker, ready, asleep, working, gone, wake_all}

abbrev pub total : (Worker → ℕ) → List Worker → ℕ
total f [] = 0
total f (w ∷ ws) = f w + total f ws

abbrev pub if_alive : Worker → ℕ
if_alive gone = 0
if_alive _ = 1

abbrev pub if_gone : Worker → ℕ
if_gone gone = 1
if_gone _ = 0

abbrev pub if_asleep : Worker → ℕ
if_asleep asleep = 1
if_asleep _ = 0

abbrev pub if_ready : Worker → ℕ
if_ready ready = 1
if_ready _ = 0

-- The steps that a worker has left, beside the tasks it will take.
abbrev pub steps_left : Worker → ℕ
steps_left ready = 1
steps_left gone = 0
steps_left _ = 2

pub total-set :
    (f : Worker → ℕ) (ws : List Worker) (i : ℕ) (w w' : Worker)
    → get_elem? ws i ≡ some w
    → total f (set ws i w') + f w ≡ total f ws + f w'
total-set f [] i w w' h = absurd (ground arith)
total-set f (v ∷ ws) zero w w' h = ground arith
total-set f (v ∷ ws) (suc i) w w' h = ground (arith, total-set f ws i w w')

pub total-replicate : (f : Worker → ℕ) (n : ℕ) → f ready ≡ 1 → total f (replicate n ready) ≡ n
total-replicate f zero h = refl
total-replicate f (suc n) h = ground (arith, total-replicate f n)

pub total-replicate_zero : (f : Worker → ℕ) (n : ℕ) → f ready ≡ 0 → total f (replicate n ready) ≡ 0
total-replicate_zero f zero h = refl
total-replicate_zero f (suc n) h = ground (arith, total-replicate_zero f n)

pub total-wake_all : (ws : List Worker) → total if_asleep (wake_all ws) ≡ 0
total-wake_all [] = refl
total-wake_all (ready ∷ ws) = ground (arith, total-wake_all ws)
total-wake_all (asleep ∷ ws) = ground (arith, total-wake_all ws)
total-wake_all (working t ∷ ws) = ground (arith, total-wake_all ws)
total-wake_all (gone ∷ ws) = ground (arith, total-wake_all ws)

-- Waking changes no count of workers that treats the sleeping as the ready.
pub total-wake_all_same :
    (f : Worker → ℕ) (ws : List Worker) → f asleep ≡ f ready → total f (wake_all ws) ≡ total f ws
total-wake_all_same f [] h = refl
total-wake_all_same f (ready ∷ ws) h = ground (arith, total-wake_all_same f ws)
total-wake_all_same f (asleep ∷ ws) h = ground (arith, total-wake_all_same f ws)
total-wake_all_same f (working t ∷ ws) h = ground (arith, total-wake_all_same f ws)
total-wake_all_same f (gone ∷ ws) h = ground (arith, total-wake_all_same f ws)

-- A worker that counts is counted.
pub total_ge :
    (f : Worker → ℕ) (ws : List Worker) (i : ℕ) (w : Worker)
    → get_elem? ws i ≡ some w
    → f w ≤ total f ws
total_ge f [] i w h = absurd (ground arith)
total_ge f (v ∷ ws) zero w h = ground arith
total_ge f (v ∷ ws) (suc i) w h = ground (arith, total_ge f ws i w)

pub no_sleeper :
    (ws : List Worker) → ((i : ℕ) → get_elem? ws i ≢ some asleep) → total if_asleep ws ≡ 0
no_sleeper [] h = refl
no_sleeper (ready ∷ ws) h = ground (arith, no_sleeper ws (λ i. h (suc i)))
no_sleeper (asleep ∷ ws) h = absurd (h 0 refl)
no_sleeper (working t ∷ ws) h = ground (arith, no_sleeper ws (λ i. h (suc i)))
no_sleeper (gone ∷ ws) h = ground (arith, no_sleeper ws (λ i. h (suc i)))

-- All are gone, or one is not.
pub gone-cases :
    (ws : List Worker)
    → (total if_alive ws ≡ 0) ⊎ ((i : ℕ) × (w : Worker) × (get_elem? ws i ≡ some w) × (w ≢ gone))
gone-cases [] = inl refl
gone-cases (ready ∷ ws) = inr (0, ready, refl, λ e. cc)
gone-cases (asleep ∷ ws) = inr (0, asleep, refl, λ e. cc)
gone-cases (working t ∷ ws) = inr (0, working t, refl, λ e. cc)
gone-cases (gone ∷ ws) = elim (gone-cases ws) [
  | inl e ↦ inl (ground arith)
  | inr (i, w, at, live) ↦ inr (suc i, w, at, live)
]
