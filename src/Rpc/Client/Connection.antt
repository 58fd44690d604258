-- ===== src/Rpc/Client/Connection.antt =====
-- What the connection around a request adds: an error without a value, and nothing that the agent
-- sees.
use sonic_operator.Base.{
  ◌≡◌, refl, subst, sym, Text, [], Error, wrapf, Result, ok, err, Exec, return, continue, map_err,
  or_fail, ◌>>=◌,
}
use sonic_operator.Base.Hoare.{Post}
use sonic_operator.Rpc.Client.{
  Failure, nothing, dial_failed, after_dial, closing, connected, device_of, interfaces_of, ports_of,
  get_device_info, list_interfaces, list_ports,
}
use sonic_operator.Rpc.Messages.{Service}
use sonic_operator.Rpc.Delivery.{Connects}

module _ {N S A : Type 0} (state : N → S) (Q : A → S → Type 0) (X : Failure A → Type 0) where
  -- A result with what it says of the agent's state.
  abbrev pub Meets : Result (Failure A) A × N → Type 0
  Meets r = Post (λ a n. Q a (state n)) (λ f n. X f) r.0 r.1

  same_state :
      (r : Result (Failure A) A) (n n' : N) → state n' ≡ state n → Meets (r, n) → Meets (r, n')
  same_state (ok a) n n' e h = subst (Q a) (sym e) h
  same_state (err f) n n' e h = h

  module _ (new_client : Text → Exec N Error (Unit {0})) (close : Exec N Error (Unit {0}))
      (service : Service N) (address : Text) (conn : Connects state new_client close) where
    closing-Meets :
        (r : Result (Failure A) A × N)
        → Meets r
        → Meets (closing new_client close service address r)
    unfolding closing
    closing-Meets r h = same_state r.0 r.1 (close r.1).1 (conn.close_keeps r.1) h

    after_dial-Meets :
        (m : Exec N (Failure A) A) (r : Result Error (Unit {0})) (n : N)
        → ((e : Error) → r ≡ err e → (e' : Error) → X (nothing e'))
        → Meets (m n)
        → Meets (after_dial new_client close service address m r n)
    unfolding after_dial dial_failed
    after_dial-Meets m (ok u) n k h = closing-Meets (m n) h
    after_dial-Meets m (err e) n k h = k e refl (wrapf "failed to connect to switch proxy: %w" [] e)

    -- Around a request that meets its contract once the connection is made.
    pub connected-Meets :
        (m : Exec N (Failure A) A) (n : N)
        → ((e : Error) → (new_client address n).0 ≡ err e → (e' : Error) → X (nothing e'))
        → (state (new_client address n).1 ≡ state n → Meets (m (new_client address n).1))
        → Meets (connected new_client close service address m n)
    unfolding connected
    connected-Meets m n k h =
        after_dial-Meets m (new_client address n).0 (new_client address n).1 k
          (h (conn.new_client_keeps address n))

-- Calls that leave an assertion on the world alone.
module _ {N : Type 0} (I : N → Type 0) where
  abbrev pub Stable : {E A : Type 0} → Exec N E A → Type 0
  Stable m = (n : N) → I n → I (m n).1

  after_call :
      {E F A B : Type 0} (r : Result E A) (f : E → F) (g : A → B) (n : N)
      → I n
      → I (continue (map_err f r) (λ a. return (g a)) n).1
  after_call (ok a) f g n p = p
  after_call (err e) f g n p = p

  module _ (new_client : Text → Exec N Error (Unit {0})) (close : Exec N Error (Unit {0}))
      (service : Service N) (address : Text)
      (dials : (address : Text) → Stable (new_client address)) (closes : Stable close) where
    after_dial-Stable :
        {A : Type 0} (m : Exec N (Failure A) A) (r : Result Error (Unit {0})) (n : N)
        → Stable m
        → I n
        → I (after_dial new_client close service address m r n).1
    unfolding after_dial closing
    after_dial-Stable m (ok u) n h p = closes (m n).1 (h n p)
    after_dial-Stable m (err e) n h p = p

    connected-Stable :
        {A : Type 0} (m : Exec N (Failure A) A)
        → Stable m
        → Stable (connected new_client close service address m)
    unfolding connected
    connected-Stable m h n p =
        after_dial-Stable m (new_client address n).0 (new_client address n).1 h (dials address n p)

    -- The operations that decode whatever arrives.
    read-Stable :
        {R A : Type 0} (call : Exec N Error R) (decode : R → A)
        → Stable call
        → Stable (
            connected new_client close service address
              (or_fail nothing call >>= λ resp. return (decode resp)))
    read-Stable call decode h =
        connected-Stable _ (λ n p. after_call (call n).0 nothing decode (call n).1 (h n p))

    pub device-Stable :
        Stable service.get_device_info → Stable (get_device_info new_client close service address)
    unfolding get_device_info
    device-Stable h = read-Stable service.get_device_info device_of h

    pub interfaces-Stable :
        Stable service.list_interfaces → Stable (list_interfaces new_client close service address)
    unfolding list_interfaces
    interfaces-Stable h = read-Stable service.list_interfaces interfaces_of h

    pub ports-Stable :
        Stable service.list_ports → Stable (list_ports new_client close service address)
    unfolding list_ports
    ports-Stable h = read-Stable service.list_ports ports_of h
