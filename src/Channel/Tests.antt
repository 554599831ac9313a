-- ===== src/Channel/Tests.antt =====
-- The channel of src/routing.rs on concrete queues.
use ws_gateway.Common.{ℕ, ◌≡◌, refl, arith, List, [], ◌∷◌, some, true, false}
use ws_gateway.Channel.{ChannelInner, closed, pending, recv, resume_recv, recv_loop}
use ws_gateway.Channel.Bounds.{newest, send_burst, send_burst_lem}
use ws_gateway.Channel.Wakeup.{resume-closed}
use ws_gateway.Channel.History.{Call, tries, evicts, receives, run, Conserves, run-Conserves}
use ws_gateway.Fixtures.{one_permit}

abbrev Numbers : Type 0
Numbers = ChannelInner one_permit ℕ

abbrev idle : Numbers
idle = record { queue = []; capacity = 2; notify = true }

abbrev full : Numbers
full = record { queue = 3 ∷ 4 ∷ []; capacity = 2; notify = true }

abbrev waiting : Numbers
waiting = record idle { notify = false }

abbrev calls : List (Call ℕ)
calls = tries 1 ∷ tries 2 ∷ evicts 3 ∷ receives 2 ∷ tries 4 ∷ []

run-Conserves_example : Conserves idle (run idle calls)
run-Conserves_example = run-Conserves calls idle

send_burst_lem_example :
    (send_burst (5 ∷ 6 ∷ 7 ∷ []) full).queue ≡ newest 2 (3 ∷ 4 ∷ 5 ∷ 6 ∷ 7 ∷ [])
send_burst_lem_example = send_burst_lem (5 ∷ 6 ∷ 7 ∷ []) full (omega arith) (omega arith)

abbrev holders : ℕ
holders = 2

pends : recv 2 waiting ≡ some (pending, waiting)
unfolding recv recv_loop
pends = refl

resume-closed_example :
    (resume_recv 1 waiting ≡ some (pending, waiting)) × (recv 1 waiting ≡ some (closed, waiting))
resume-closed_example = resume-closed 2 waiting waiting pends
