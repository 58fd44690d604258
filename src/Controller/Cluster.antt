-- ===== src/Controller/Cluster.antt =====
-- What the reconcilers call outside of the repository, and what both reconcilers share.
use sonic_operator.Base.{
  ℕ, Text, codes, is_empty, Bool, true, false, ◌&&◌, ◌++◌, [], if◌then◌else◌, Error, Result, ok,
  err, Exec, return, ◌>>=◌,
}
use sonic_operator.Rpc.Messages.{Service}
use sonic_operator.Rpc.Client.{client_address}
use sonic_operator.Api.{Switch, switch_finalizer}

-- Why an object cannot be read.
pub data ApiError : Type 0 where
  missing : ApiError
  failed : Error → ApiError

-- The calls of the API server for the objects of one kind. The two on finalizers, of package
-- clientutils, tell whether they have changed the object, and give it as it is then. `patch_status`
-- is given the object before and after the change.
pub record Objects (K A : Type 0) : Type 0 where
  pub get : Text → Text → Exec K ApiError A
  pub ensure_finalizer : Text → A → Exec K Error (Bool × A)
  pub ensure_no_finalizer : Text → A → Exec K Error (Bool × A)
  pub patch_status : A → A → Exec K Error A

-- The connections to the agents: grpc.NewClient, conn.Close, and the calls to the agent at an
-- address.
pub record Network (K : Type 0) : Type 0 where
  pub new_client : Text → Exec K Error (Unit {0})
  pub close : Exec K Error (Unit {0})
  pub service : Text → Service K

-- NewAgentClientForSwitch: the address of the client. Making it cannot fail.
unfoldable pub agent_address : Switch → Text
agent_address s =
    if is_empty s.spec.management.host && is_empty s.spec.management.port
    then client_address []
    else client_address (s.spec.management.host ++ (codes ":" ++ s.spec.management.port))

-- ctrl.Result: after how many seconds to reconcile again, where 0 is not at all.
abbrev pub Requeue : Type 0
Requeue = ℕ

-- The object that a reconciler holds and changes, beside the world.
pub record Work (K A : Type 0) : Type 0 where
  pub object : A
  pub world : K

module _ {K A : Type 0} where
  -- A call that leaves the object alone.
  abbrev pub outside : {E B : Type 0} → Exec K E B → Exec (Work K A) E B
  outside m w = ((m w.world).0, record w { world = (m w.world).1 })

  abbrev pub update : {E : Type 0} → (A → A) → Exec (Work K A) E (Unit {0})
  update f w = (ok tt, record w { object = f w.object })

  abbrev pub held : {E : Type 0} → Exec (Work K A) E A
  held w = (ok w.object, w)

module _ {K A : Type 0} (objects : Objects K A) where
  -- client.IgnoreNotFound
  ignore_missing : ApiError → Result Error Requeue
  ignore_missing ApiError.missing = ok 0
  ignore_missing (ApiError.failed e) = err e

  -- The deferred patch of the status, whose error is only logged.
  unfoldable pub finish : A → Result Error Requeue × Work K A → Result Error Requeue × K
  finish original r = (r.0, (objects.patch_status original r.1.object r.1.world).1)

  unfoldable pub after_finalizer :
      Exec (Work K A) Error Requeue → Result Error (Bool × A) → Exec K Error Requeue
  unfolding finish
  after_finalizer body (err e) k = (err e, k)
  after_finalizer body (ok (true, i)) k = (ok 0, k)
  after_finalizer body (ok (false, i)) k = finish i (body (record { object = i; world = k }))

  -- The reconciler of an object that is there to stay.
  unfoldable pub with_finalizer : Exec (Work K A) Error Requeue → A → Exec K Error Requeue
  unfolding after_finalizer
  with_finalizer body i k =
      after_finalizer body (objects.ensure_finalizer switch_finalizer i k).0
        (objects.ensure_finalizer switch_finalizer i k).1

  -- The reconciler of an object that is being deleted.
  unfoldable pub delete : A → Exec K Error Requeue
  delete i = do removed ← objects.ensure_no_finalizer switch_finalizer i; return 0

  unfoldable pub exists : (A → Bool) → Exec (Work K A) Error Requeue → A → Exec K Error Requeue
  exists deleting body i = if deleting i then delete i else with_finalizer body i

  unfoldable pub after_get :
      (A → Bool) → Exec (Work K A) Error Requeue → Result ApiError A → Exec K Error Requeue
  unfolding ignore_missing exists
  after_get deleting body (err e) k = (ignore_missing e, k)
  after_get deleting body (ok i) k = exists deleting body i k

  -- Reconcile
  unfoldable pub reconcile :
      (A → Bool) → Exec (Work K A) Error Requeue → Text → Text → Exec K Error Requeue
  unfolding after_get
  reconcile deleting body namespace name k =
      after_get deleting body (objects.get namespace name k).0 (objects.get namespace name k).1
