-- ===== src/Rpc/Reconnect.antt =====
-- The delays between attempts to connect: `RECONNECT_DELAYS` and their use in `scheduleReconnect`
-- (web/src/core/ws/ws-client.ts).
use mobilecoding.Base.{
  ℕ, zero, suc, ◌-◌, ◌≤◌, ◌≡◌, refl, List, [], ◌∷◌, arith, length, get_elem?, min, Option, none,
  some,
}

abbrev pub reconnect_delays : List ℕ
reconnect_delays = 1000 ∷ 2000 ∷ 5000 ∷ 10000 ∷ 30000 ∷ []

abbrev found : Option ℕ → ℕ
found none = 0
found (some d) = d

-- `RECONNECT_DELAYS[Math.min(attempt, RECONNECT_DELAYS.length - 1)]`
unfoldable pub reconnect_delay : ℕ → ℕ
reconnect_delay attempt =
    found (get_elem? reconnect_delays (min attempt (length reconnect_delays - 1)))

-- From one attempt to the next the delay does not shrink, it is between one second and thirty, and
-- from the fifth attempt on it is thirty.
reconnect_delay_lem :
    (n : ℕ)
    → (1000 ≤ reconnect_delay n)
      × (reconnect_delay n ≤ reconnect_delay (suc n))
      × (reconnect_delay n ≤ 30000)
      × (reconnect_delay (suc (suc (suc (suc n)))) ≡ 30000)
unfolding reconnect_delay
reconnect_delay_lem zero = ground arith
reconnect_delay_lem (suc zero) = ground arith
reconnect_delay_lem (suc (suc zero)) = ground arith
reconnect_delay_lem (suc (suc (suc zero))) = ground arith
reconnect_delay_lem (suc (suc (suc (suc n)))) =
    let e : min (suc (suc (suc (suc n)))) 4 ≡ 4 = omega arith in
    let e' : min (suc (suc (suc (suc (suc n))))) 4 ≡ 4 = omega arith in
    let e'' : min (suc (suc (suc (suc (suc (suc (suc (suc n)))))))) 4 ≡ 4 = omega arith in
    rw (e, e', e'') (omega arith, omega arith, omega arith, refl)
