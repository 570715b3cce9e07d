-- ===== src/Server/Joining.antt =====
-- main.rs, `on_connect`: what the first IDE that joins is shown.
use mathlib.Core.List.{Perm}
use mathlib.Core.List.Perm
use shario.Prelude.{ℕ, true, List}
use shario.Tree.Directory.{SharDirectory}
use shario.Queue.State.{new_queue}
use shario.Queue.Wrap.{QueueWrap}

-- The queue that is opened, where nothing has been heard yet.
abbrev opened : QueueWrap → SharDirectory → ℕ → ℕ → QueueWrap
opened w d peer counter = record w { queue = new_queue d peer counter; queue_initialized = true }
