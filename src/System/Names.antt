-- ===== src/System/Names.antt =====
-- The operations of the system change neither the names of the connections nor what was received.
use ws_gateway.Common.{ℕ, ◌≡◌, refl, sym, ◌∙◌, Bool, Option, none, some, arith}
use ws_gateway.Protocol.Fields.{Bytes}
use ws_gateway.Channel.{Notify, Poll, item, closed, pending}
use ws_gateway.Router.{leave, Sender, Rooms, update}
use ws_gateway.Network.{Flow, goes_on, breaks}
use ws_gateway.State.{
  System, Connection, resume, polled, counted, discounted, left, removed, finished,
}
use ws_gateway.System.World.{world, Extends}
use ws_gateway.System.Valid.{update-cases}

pub record SameNames {n : Notify} (s t : System n) : Type 0 where
  pub next : t.next ≡ s.next
  pub rooms : (c : Sender) → (t.connections c).room ≡ (s.connections c).room
  pub users : (c : Sender) → (t.connections c).user ≡ (s.connections c).user
  pub received : t.received ≡ s.received

module _ {n : Notify} where
  pub SameNames-trans : {s t u : System n} → SameNames s t → SameNames t u → SameNames s u
  SameNames-trans p q = record {
    next = q.next ∙ p.next;
    rooms = λ c. q.rooms c ∙ p.rooms c;
    users = λ c. q.users c ∙ p.users c;
    received = q.received ∙ p.received;
  }

  pub SameNames-Extends : {s t : System n} → SameNames s t → Extends (world s) (world t)
  SameNames-Extends p = record {
    next_le = omega (arith, p.next);
    rooms_kept = λ c h. p.rooms c;
    users_kept = λ c h. p.users c;
    received_kept = λ x m. rw p.received m;
  }

  -- A connection that keeps its names is put in its place.
  changed_names :
      (s : System n) (i : Sender) (f : Connection)
      → f.room ≡ (s.connections i).room
      → f.user ≡ (s.connections i).user
      → SameNames s (record s { connections = update s.connections i f })
  changed_names s i f r u = record {
    next = refl;
    rooms =
        update-cases (λ j (c : Connection). c.room ≡ (s.connections j).room) s.connections i f r
          (λ j. refl);
    users =
        update-cases (λ j (c : Connection). c.user ≡ (s.connections j).user) s.connections i f u
          (λ j. refl);
    received = refl;
  }

  pub resume-SameNames : (s : System n) (i : Sender) (f : Flow n) → SameNames s (resume s i f)
  unfolding resume
  resume-SameNames s i (goes_on after) =
      let p = changed_names s i _ refl refl in
      record { next = refl; rooms = p.rooms; users = p.users; received = refl }
  resume-SameNames s i (breaks after) =
      let p = changed_names s i _ refl refl in
      record { next = refl; rooms = p.rooms; users = p.users; received = refl }

  pub polled-SameNames :
      (now : ℕ) (sent : Bool) (i : Sender) (p : Poll Bytes) (s : System n)
      → SameNames s (polled now sent i p s)
  unfolding polled
  polled-SameNames now sent i (item x) s = resume-SameNames s i _
  polled-SameNames now sent i closed s = resume-SameNames s i _
  polled-SameNames now sent i pending s = record {
    next = refl;
    rooms = λ c. refl;
    users = λ c. refl;
    received = refl;
  }

  pub left-SameNames :
      (r : Bytes) (o : Option (Bool × Rooms)) (s : System n) → SameNames s (left r o s)
  unfolding left
  left-SameNames r none s = record {
    next = refl;
    rooms = λ c. refl;
    users = λ c. refl;
    received = refl;
  }
  left-SameNames r (some (cleanup, rooms)) s = record {
    next = refl;
    rooms = λ c. refl;
    users = λ c. refl;
    received = refl;
  }

  pub finished-SameNames :
      (sent : Bool) (i : Sender) (s : System n) → SameNames s (finished sent i s)
  unfolding finished
  finished-SameNames sent i s =
      let p = changed_names s i _ refl refl in
      record { next = refl; rooms = p.rooms; users = p.users; received = refl }

  pub counted-SameNames : (now : ℕ) (i : Sender) (s : System n) → SameNames s (counted now i s)
  unfolding counted
  counted-SameNames now i s =
      let p = changed_names s i _ refl refl in
      record { next = refl; rooms = p.rooms; users = p.users; received = refl }

  pub discounted-SameNames : (i : Sender) (s : System n) → SameNames s (discounted i s)
  unfolding discounted
  discounted-SameNames i s =
      let p = changed_names s i _ refl refl in
      record { next = refl; rooms = p.rooms; users = p.users; received = refl }

  pub removed-SameNames : (i : Sender) (s : System n) → SameNames s (removed i s)
  unfolding removed
  removed-SameNames i s =
      let c = s.connections i in
      let before = left-SameNames c.room (leave s.gateway.shared.rooms c.room c.user) s in
      let t = left c.room (leave s.gateway.shared.rooms c.room c.user) s in
      SameNames-trans before (changed_names t i _ (sym (before.rooms i)) (sym (before.users i)))
