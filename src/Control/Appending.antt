-- ===== src/Control/Appending.antt =====
-- Consistency under the operations that record a command and change nothing else.
use simple_coding_agent.Base.{ℕ, String, refl, Option, [], ◌∷◌, ◌++◌}
use simple_coding_agent.Control.Types.{
  Clock, Kind, Payload, Acknowledgement, ControlStore, resume, recovery_retry, recovery_release,
  errors_reset,
}
use simple_coding_agent.Control.Table.{new_command, insert}
use simple_coding_agent.Control.Invariant.{Demand, IsConsistent}
use simple_coding_agent.Control.Rows.{accepted_kind-append}
use simple_coding_agent.Control.Demands.{added-IsConsistent, plan-Shape}
use simple_coding_agent.Control.Recovery.{retry_body, release_body, reset_body}
use simple_coding_agent.Control.Resume.{resume_when_begun}

insert-IsConsistent :
    (r : String) (k : Kind) (p : Payload) (a : Acknowledgement) (d t : String) (s : ControlStore)
    → Demand s a k r
    → IsConsistent s
    → IsConsistent (insert r k p a d t s).1
unfolding insert
insert-IsConsistent r k p a d t s new i =
    let added = new_command r k p a d t s.commands ∷ [] in
    added-IsConsistent (insert r k p a d t s).1 s.commands r k p a d t refl i.priority i.rows new (
      plan-Shape s.intake s.pending s.stop_after_requested s.stop_after_remaining s.commands
        (s.commands ++ added) (λ q j _. accepted_kind-append q j s.commands added) i.shape)

pub retry_body-IsConsistent :
    (r b : String) (now : Clock) (s : ControlStore)
    → IsConsistent s
    → IsConsistent (retry_body r b now s).1
unfolding retry_body
retry_body-IsConsistent r b now s i = insert-IsConsistent r recovery_retry _ _ _ _ s tt i

pub release_body-IsConsistent :
    (r b c : String) (now : Clock) (s : ControlStore)
    → IsConsistent s
    → IsConsistent (release_body r b c now s).1
unfolding release_body
release_body-IsConsistent r b c now s i = insert-IsConsistent r recovery_release _ _ _ _ s tt i

pub reset_body-IsConsistent :
    (r : String) (n : Option ℕ) (now : Clock) (s : ControlStore)
    → IsConsistent s
    → IsConsistent (reset_body r n now s).1
unfolding reset_body
reset_body-IsConsistent r n now s i = insert-IsConsistent r errors_reset _ _ _ _ s tt i

pub resume_when_begun-IsConsistent :
    (r : String) (now : Clock) (s : ControlStore)
    → IsConsistent s
    → IsConsistent (resume_when_begun r now s).1
unfolding resume_when_begun
resume_when_begun-IsConsistent r now s i = insert-IsConsistent r resume _ _ _ _ s tt i
