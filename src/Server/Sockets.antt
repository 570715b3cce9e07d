-- ===== src/Server/Sockets.antt =====
-- main.rs, `on_connect`: what the IDE's messages do to the shared queue, and what a joining IDE is shown.
-- The queue that opens under the path is an argument: it depends on the disk and on a random id.
use shario.Prelude.{Option, none, some, [], if◌then◌else◌}
use shario.Types.{PathBuf, Connect, IdeAdd, Remove, Result, ok, err, fault}
use shario.Tree.Directory.Load.{Shown}
use shario.Queue.State.{SharQueue, ◌>>=◌}
use shario.Queue.Wrap
use shario.Queue.Wrap.{QueueWrap, wrap_after, create}
use shario.StateRequest.{queue_identities}

pub data Room : Type 0 where
  local_room network_room : Room

-- The queue, the one room that the socket is in, and the "initial-state" messages, one for each file.
pub record Joined : Type 0 where
  pub wrap : QueueWrap
  pub room : Room
  pub initial_state : Shown

abbrev pub showing : QueueWrap → Shown → Joined
showing w shown = record { wrap = w; room = local_room; initial_state = shown }

-- `identities` where it does not panic
abbrev pub unwrap {ℓ} : {A : Type ℓ} → Result A → Option A
unwrap (ok a) = some a
unwrap (err e) = none
unwrap fault = none

-- The handler of "join". An error of `QueueWrap::new` is logged, and the handler goes on.
unfoldable pub on_join : (PathBuf → Result SharQueue) → Connect → QueueWrap → Option Joined
unfolding create
on_join opens message w =
    if message.local
    then (wrap_after (create (opens message.path) w) >>= λ w'.
        (unwrap (queue_identities w'.queue) >>= λ shown. some (showing w' shown)))
    else some (record { wrap = w; room = network_room; initial_state = [] })

-- The handlers of "ide-add" and "remove"; an addition does not answer with an error.
unfoldable pub on_ide_add : IdeAdd → QueueWrap → Option QueueWrap
unfolding Wrap.add_ide_operation
on_ide_add message w = Wrap.add_ide_operation w message

unfoldable pub on_remove : Remove → QueueWrap → Option QueueWrap
unfolding Wrap.remove_ide_operation
on_remove message w = Wrap.remove_ide_operation w message
