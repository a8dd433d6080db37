-- ===== src/Client/Backoff.antt =====
-- The delays between the connections.
use diplom_code.Base.{
  ◌≡◌, refl, ℕ, ◌≤◌, String, Option, none, some, List, [], ◌∷◌, string_eq, nat_eq, int_eq, arith,
  map, All, ◌*◌, min,
}
use diplom_code.Client.{Round, refused, broken, ended, Client, start, run_rounds, after_error}

abbrev pub Within : Option ℕ → Type 0
Within none = Unit {0}
Within (some n) = (1 ≤ n) × (n ≤ 30)

delays_from :
    (rounds : List (Round × Option String)) (c : Client)
    → 1 ≤ c.backoff
    → c.backoff ≤ 30
    → All Within (run_rounds rounds c)
unfolding run_rounds
delays_from [] c lo hi = tt
delays_from ((refused, fetched) ∷ rounds) c lo hi =
    ((lo, hi), delays_from rounds _ (omega arith) (omega arith))
delays_from ((broken, fetched) ∷ rounds) c lo hi =
    ((omega arith, omega arith), delays_from rounds _ (omega arith) (omega arith))
delays_from ((ended, fetched) ∷ rounds) c lo hi =
    (tt, delays_from rounds _ (omega arith) (omega arith))

-- Whatever happens to the connections, every delay is from 1 to 30 seconds.
pub delays_bounded : (rounds : List (Round × Option String)) → All Within (run_rounds rounds start)
delays_bounded rounds = delays_from rounds start (omega arith) (omega arith)

abbrev pub doubling : List (Option String) → ℕ → List (Option ℕ)
doubling [] b = []
doubling (token ∷ tokens) b = some (min b 30) ∷ doubling tokens (2 * b)

refusals_from :
    (tokens : List (Option String)) (c : Client) (b : ℕ)
    → c.backoff ≡ min b 30
    → run_rounds (map (λ t. (refused, t)) tokens) c ≡ doubling tokens b
unfolding run_rounds
refusals_from [] c b h = refl
refusals_from (t ∷ tokens) c b h =
    rw (h, refusals_from tokens (after_error (min b 30)) (2 * b) (omega arith))

-- While every connection is refused, the delay after the n-th refusal is 2 ^ (n - 1) seconds, cut
-- to 30, whatever access tokens are fetched meanwhile.
pub refusals_double :
    (tokens : List (Option String))
    → run_rounds (map (λ t. (refused, t)) tokens) start ≡ doubling tokens 1
refusals_double tokens = refusals_from tokens start 1 (omega arith)
