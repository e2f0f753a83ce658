-- ===== src/Job/Race.antt =====
-- The race of executeJob in packages/core/src/execution/dispatcher.ts: the job, its heartbeat and
-- its timer, whose steps interleave. An interleaving is a list of events in their order; the world
-- `W` holds the store and all that the job acts on. The timer is set before the race is awaited, so
-- a race that nothing else has decided is decided by it.
use kittle.Base.{
  String, Bool, true, false, List, [], ◌∷◌, Option, none, some, Result, ok, err, if◌then◌else◌,
}
use kittle.Js.{boolean, Props}
use kittle.Job.Store.{Message, Reply}

-- A value that was thrown: whether it is an `Error`, what `errorMessage` makes of it, and its
-- property `kind`, if that is a text.
pub record Thrown : Type 0 where
  pub is_error : Bool
  pub message : Message
  pub kind : Option String

-- What `execute` resolved to, which is not trusted to be a result: the fields of an object that is
-- not an array. An absent `success` is one that is no boolean, an absent error one that is falsy.
pub record ResultFields (N : Type 0) : Type 0 where
  pub success : Option Bool
  pub data' : Option (Props N)
  pub error : Option Thrown

pub data Returned (N : Type 0) : Type 0 where
  not_an_object : Returned N
  fields : ResultFields N → Returned N

abbrev pub Decision : Type 0 → Type 0
Decision N = Result Thrown (Returned N)

pub data Event (N W : Type 0) : Type 0 where
  works : (W → W) → Event N W
  settles : Decision N → Event N W
  wakes sleep_fails fires : Event N W

-- `is_settled` tells of the execution promise alone, `decision` of the race.
pub record Running (N W : Type 0) : Type 0 where
  pub world : W
  pub is_settled : Bool
  pub timed_out : Bool
  pub lease_lost : Bool
  pub decision : Option (Decision N)

abbrev pub plain_error : Message → Thrown
plain_error m = record { is_error = true; message = m; kind = none }

module _ {N : Type 0} where
  -- `renewed !== true`, or a call that threw.
  abbrev pub is_renewed : Reply N → Bool
  is_renewed (ok (boolean b)) = b
  is_renewed _ = false

  -- The first promise to settle decides.
  abbrev first_decision : Option (Decision N) → Decision N → Option (Decision N)
  first_decision none d = some d
  first_decision (some c) d = some c

module _ {N W : Type 0} where
  abbrev pub lose_lease : Running N W → Running N W
  lose_lease r = record r {
    lease_lost = true;
    decision = first_decision r.decision (err (plain_error Message.lease_was_lost));
  }

  abbrev pub beat : Running N W → Reply N × W → Running N W
  beat r (reply, w) =
      let renewed = record r { world = w } in
      if is_renewed reply then renewed else lose_lease renewed

  -- The heartbeat ends when it loses the lease.
  unfoldable pub step : (W → Reply N × W) → Event N W → Running N W → Running N W
  step renew (works f) r = record r { world = f r.world }
  step renew (settles d) r =
      if r.is_settled
      then r
      else record r { is_settled = true; decision = first_decision r.decision d }
  step renew wakes r = if r.lease_lost then r else beat r (renew r.world)
  step renew sleep_fails r = if r.lease_lost then r else lose_lease r
  step renew fires r = if r.timed_out then r else record r {
    timed_out = true;
    decision = first_decision r.decision (err (plain_error Message.timed_out));
  }

  unfoldable pub steps : (W → Reply N × W) → List (Event N W) → Running N W → Running N W
  unfolding step
  steps renew [] r = r
  steps renew (e ∷ es) r = steps renew es (step renew e r)

  abbrev pub started : W → Running N W
  started w = record {
    world = w;
    is_settled = false;
    timed_out = false;
    lease_lost = false;
    decision = none;
  }

  -- The state in which the code goes on, with the decision.
  abbrev pub resumed : Option (Decision N) → Running N W → Decision N × Running N W
  resumed (some d) r = (d, r)
  resumed none r = (err (plain_error Message.timed_out), record r { timed_out = true })

  unfoldable pub race : (W → Reply N × W) → List (Event N W) → W → Decision N × Running N W
  unfolding steps
  race renew es w = let r = steps renew es (started w) in resumed r.decision r

  -- waitForExecutionSettlement: the events until the job settles or the grace period ends.
  unfoldable pub wait_for_settlement :
      (W → Reply N × W) → List (Event N W) → Running N W → Running N W
  unfolding steps
  wait_for_settlement renew es r = if r.is_settled then r else steps renew es r
