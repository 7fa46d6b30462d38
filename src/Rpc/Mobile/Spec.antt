-- ===== src/Rpc/Mobile/Spec.antt =====
-- What a client does with its requests, without its connections: the cases of a step of the phone's
-- client (mobile/src/services/network/WSClient.ts).
use mobilecoding.Base.{ℕ, ◌≡◌, String, Bool, Option}
use mobilecoding.Json.{Json}
use mobilecoding.Rpc.Calls.{Calls, Outcome, send, flush, respond, time_out}
use mobilecoding.Rpc.Ledger.{Inv}
use mobilecoding.Rpc.Conservation.{send-Inv, flush-Inv, respond-Inv, time_out-Inv}

-- A request is made and goes out or waits, the waiting ones go out together, a response or the time
-- limit settles one, or nothing happens.
pub data LedgerStep (id_of : ℕ → String) : Calls → Calls → Type 0 where
  rests : {c : Calls} → LedgerStep id_of c c
  makes :
      {c : Calls} (open_now : Bool) (method : String) (params : Option Json)
      → LedgerStep id_of c (send id_of open_now method params c)
  flushes : {c : Calls} → LedgerStep id_of c (flush id_of c)
  answers : {c : Calls} (id : String) (o : Outcome) → LedgerStep id_of c (respond id_of id o c)
  expires :
      {c : Calls} (msg : String → String) (n : ℕ) → LedgerStep id_of c (time_out id_of msg n c)

pub LedgerStep-Inv :
    (id_of : ℕ → String)
    → ((m n : ℕ) → id_of m ≡ id_of n → m ≡ n)
    → {c d : Calls} → LedgerStep id_of c d
    → Inv c
    → Inv d
LedgerStep-Inv id_of distinct rests v = v
LedgerStep-Inv id_of distinct (makes b m p) v = send-Inv id_of distinct b m p _ v
LedgerStep-Inv id_of distinct flushes v = flush-Inv id_of distinct _ v
LedgerStep-Inv id_of distinct (answers id o) v = respond-Inv id_of distinct id o _ v
LedgerStep-Inv id_of distinct (expires msg n) v = time_out-Inv id_of distinct msg n _ v
