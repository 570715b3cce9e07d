-- ===== src/Examples.antt =====
-- The theorems at concrete files, directories and queues.
mod Runs
mod Peers
mod Paths
mod Replicas
use shario.Prelude.{
  ℕ, true, Option, none, some, [], ◌∷◌, ◌≡◌, ◌≢◌, ◌⊎◌, refl, inl, inr, arith, Identity, same,
  same_iff, identity_eq, nat_eq, if◌then◌else◌, string_eq,
}
use shario.Types.{ok, new_relation, Crdt, identity_of, IdeAdd, add, remove}
use shario.HashMap
use shario.Tree.File.{is_line_break, SharFile, root}
use shario.Tree.Document.{document, live_count, breaks_line, IsWellFormed}
use shario.Tree.Document.Found.{FindOutcome, find_crdt-any_hint}
use shario.Tree.Insert
use shario.Tree.Insert.{goes_before, find_tombstone}
use shario.Tree.Insert.Breaks.{IsNewBreak, concurrent_breaks_differ}
use shario.Tree.Insert.Climb.{Climbs, IsNumbered}
use shario.Tree.Insert.Under.{Climbed, add_crdt-Climbs}
use shario.Tree.Insert.Tombstone.{break_under_tombstone-displaces}
use shario.Tree.Insert.Order.{placed}
use shario.Tree.Insert.Live.{add_crdt-placed_live}
use shario.Tree.Insert.Concurrent.{IsNewChild, Agree, siblings_commute}
use shario.Tree.Insert.Interleaved.{interleaved_siblings_differ}
use shario.Tree.Delete
use shario.Tree.Delete.Erase.{RemoveOutcome, remove_crdt-erases}
use shario.Tree.Edit.{remove_crdt-add_crdt, add_crdt-redelivered}
use shario.Tree.Load.{add_file}
use shario.Tree.Load.RoundTrip.{text, add_file-text}
use shario.Tree.Directory
use shario.Tree.Directory.{SharDirectory, Directories, directory, nil, cons, find_file, find_in}
use shario.Queue.State.{SharQueue, new_queue, ◌>>=◌}
use shario.Queue.Wrap.{
  default_wrap, queue_after, wrap_after, receive_all, create, create-receive_all,
}
use shario.Queue.Ide.{drain_ide_worklist, add_ide_operation}
use shario.Queue.Ide.Drain.{drain_ide_worklist-Ends}
use shario.Queue.Ide.Drain as IdeDrain
use shario.Queue.Ide.Register.{add_ide_operation-registers, add_ide_operation-releases_no_network}
use shario.Queue.Network.{drain_network_worklist}
use shario.Queue.Network.Drain.{drain_network_worklist-Ends}
use shario.Queue.Network.Drain as NetworkDrain

-- "a", a line break, and a tombstone.
abbrev page : SharFile
page = record {
  file_path = "/" ∷ "doc" ∷ "page" ∷ [];
  characters =
      ((3, 1), record { value = 98; parent_id = 1; parent_peer = 1; deleted = true })
      ∷ ((2, 1), new_relation 10 1 1)
      ∷ ((1, 1), new_relation 97 0 0)
      ∷ (root, new_relation 0 0 0)
      ∷ [];
  projection = (root ∷ (1, 1) ∷ []) ∷ ((2, 1) ∷ []) ∷ [];
}

page-IsWellFormed : IsWellFormed page
unfolding HashMap.get breaks_line same is_line_break
page-IsWellFormed = record {
  shape = ((refl, (refl, tt)), ((refl, tt), tt));
  counts =
      λ k. ground (arith, same_iff root k, same_iff (1, 1) k, same_iff (2, 1) k, same_iff (3, 1) k);
  rooted =
      (refl, inr (_, refl), (refl, inr (_, refl), (refl, inr (_, refl), (refl, inl refl, tt))));
  sentinel = refl;
}

abbrev typed : Crdt
typed = record { id = 4; peer = 1; relation = new_relation 99 2 1 }

abbrev other : Crdt
other = record { id = 4; peer = 2; relation = new_relation 100 2 1 }

abbrev reply : Crdt
reply = record { id = 5; peer = 1; relation = new_relation 101 4 1 }

typed-placed :
    (pos : ℕ × ℕ) × ((Insert.add_crdt page 7 typed).1 ≡ ok (some pos))
    × (IsWellFormed (Insert.add_crdt page 7 typed).0
        × ((Insert.add_crdt page 7 typed).0.characters
            ≡ HashMap.insert (4, 1) typed.relation page.characters)
        × (document (Insert.add_crdt page 7 typed).0
            ≡ placed page.characters typed (document page)))
unfolding HashMap.get same
typed-placed = add_crdt-placed_live page 7 typed page-IsWellFormed refl refl refl refl

break-removed : RemoveOutcome page (2, 1) 9 (HashMap.get (2, 1) page.characters)
break-removed = remove_crdt-erases page (2, 1) 9 page-IsWellFormed (λ e. absurd (ground arith))

break-found : FindOutcome page (2, 1) (live_count (HashMap.get (2, 1) page.characters))
break-found = find_crdt-any_hint page (2, 1) page-IsWellFormed (λ e. absurd (ground arith))

typed-IsNewChild : IsNewChild page (2, 1) typed
unfolding HashMap.get same is_line_break
typed-IsNewChild = record { under = refl; unknown = refl; visible = refl; plain = refl }

other-IsNewChild : IsNewChild page (2, 1) other
unfolding HashMap.get same is_line_break
other-IsNewChild = record { under = refl; unknown = refl; visible = refl; plain = refl }

reply-IsNewChild : IsNewChild page (4, 1) reply
unfolding HashMap.get same is_line_break
reply-IsNewChild = record { under = refl; unknown = refl; visible = refl; plain = refl }

typed-other : identity_of typed ≢ identity_of other
typed-other e = absurd (ground arith)

typed-reply : identity_of typed ≢ identity_of reply
typed-reply e = absurd (ground arith)

reply-other : identity_of reply ≢ identity_of other
reply-other e = absurd (ground arith)

typed_and_other-commute :
    Agree
      (Insert.add_crdt (Insert.add_crdt page 0 typed).0 1 other).0
      (Insert.add_crdt (Insert.add_crdt page 2 other).0 3 typed).0
unfolding HashMap.get same
typed_and_other-commute =
    siblings_commute page (2, 1) typed other 0 1 2 3 page-IsWellFormed refl refl typed-IsNewChild
      other-IsNewChild typed-other

replicas-differ :
    let child_first =
      (Insert.add_crdt (Insert.add_crdt (Insert.add_crdt page 0 typed).0 0 reply).0 0 other).0 in
    let sibling_first =
      (Insert.add_crdt (Insert.add_crdt (Insert.add_crdt page 1 other).0 1 typed).0 1 reply).0 in
    (document child_first ≡ root ∷ (1, 1) ∷ (2, 1) ∷ (4, 1) ∷ (4, 2) ∷ (5, 1) ∷ [])
    × (document sibling_first ≡ root ∷ (1, 1) ∷ (2, 1) ∷ (4, 1) ∷ (5, 1) ∷ (4, 2) ∷ [])
    × (document child_first ≢ document sibling_first)
unfolding HashMap.get same goes_before
replicas-differ =
    interleaved_siblings_differ page (2, 1) (root ∷ (1, 1) ∷ []) typed reply other 0 0 0 1 1 1
      page-IsWellFormed refl refl refl typed-IsNewChild other-IsNewChild reply-IsNewChild
      typed-other typed-reply reply-other refl

typed-undone :
    (pos : ℕ × ℕ) × ((Delete.remove_crdt (Insert.add_crdt page 7 typed).0 0 (4, 1)).1
      ≡ ok (some pos))
    × (IsWellFormed (Delete.remove_crdt (Insert.add_crdt page 7 typed).0 0 (4, 1)).0
        × (document (Delete.remove_crdt (Insert.add_crdt page 7 typed).0 0 (4, 1)).0
            ≡ document page))
unfolding HashMap.get same
typed-undone = remove_crdt-add_crdt page 7 0 typed page-IsWellFormed refl refl refl refl

typed-redelivered :
    Insert.add_crdt (Insert.add_crdt page 7 typed).0 0 typed
    ≡ ((Insert.add_crdt page 7 typed).0, ok none)
unfolding HashMap.get same
typed-redelivered = add_crdt-redelivered page 7 0 typed page-IsWellFormed refl refl refl refl

lines-loaded :
    (f : SharFile) × (add_file ("notes" ∷ []) (97 ∷ 10 ∷ 98 ∷ []) 5 ≡ ok (f, 8))
    × IsWellFormed f
    × (document f ≡ root ∷ (6, 0) ∷ (7, 0) ∷ (8, 0) ∷ [])
    × (text f ≡ 0 ∷ 97 ∷ 10 ∷ 98 ∷ [])
lines-loaded = add_file-text ("notes" ∷ []) (97 ∷ 10 ∷ 98 ∷ []) 5 (omega arith)

abbrev note : SharFile
note = record page { file_path = "/" ∷ "doc" ∷ "sub" ∷ "note" ∷ [] }

-- "/doc" with a file beside its child "/doc/sub", which holds another.
abbrev site_with : SharFile → SharDirectory
site_with f =
    directory ("/" ∷ "doc" ∷ []) (cons (directory ("/" ∷ "doc" ∷ "sub" ∷ []) nil (f ∷ [])) nil)
      (page ∷ [])

note-found : find_file (site_with note) ("/" ∷ "doc" ∷ "sub" ∷ "note" ∷ []) ≡ some (note, site_with)
unfolding find_file find_in
note-found = refl

abbrev keystroke : IdeAdd
keystroke = record {
  file_path = "/" ∷ "doc" ∷ "sub" ∷ "note" ∷ [];
  parent_id = some 2;
  parent_peer = some 1;
  parent_tag = none;
  tag = 9;
  val = 120;
  line_hint = 0;
}

-- A keystroke on the worklist, another behind it in the backlog, a removal and an addition in the
-- network's.
abbrev busy : SharQueue
busy = record (new_queue (site_with note) 1 5) {
  ide_worklist = keystroke ∷ [];
  tag_identities = (9, (6, 1)) ∷ [];
  ide_backlog = ((6, 1), record keystroke { parent_id = some 6 } ∷ []) ∷ [];
  network_backlog =
      ((6, 1), remove (record { file_path = "sub" ∷ "note" ∷ []; id = 6; peer = 1; row = 0 }) ∷ [])
      ∷ [];
  network_worklist = add (record { file_path = "sub" ∷ "note" ∷ []; crdt = typed; row = 1 }) ∷ [];
}

busy-ide_ends :
    ((q' : SharQueue) × (drain_ide_worklist busy ≡ some q') × (q'.ide_worklist ≡ []))
    ⊎ IdeDrain.Panics busy
busy-ide_ends = drain_ide_worklist-Ends busy

busy-network_ends :
    ((q' : SharQueue) × (drain_network_worklist busy ≡ some q') × (q'.network_worklist ≡ []))
    ⊎ NetworkDrain.Panics busy
busy-network_ends = drain_network_worklist-Ends busy

abbrev resting : SharQueue
resting = record busy { ide_worklist = []; tag_identities = [] }

abbrev or_resting : Option SharQueue → SharQueue
or_resting (some q) = q
or_resting none = resting

abbrev left : SharQueue
left = or_resting (add_ide_operation resting keystroke)

keystroke-handled : add_ide_operation resting keystroke ≡ some left
unfolding add_ide_operation drain_ide_worklist new_queue HashMap.get HashMap.insert
    Directory.add_crdt find_file Insert.add_crdt same shario.Tree.Search.find_crdt
    shario.Tree.Search.position shario.Tree.Search.ring_search is_line_break
    shario.Queue.Ide.ide_fuel shario.Queue.State.backlog_size HashMap.remove
keystroke-handled = refl

keystroke-registers :
    (left.counter ≡ 6)
    × ((tag : ℕ)
        → HashMap.get tag left.tag_identities
          ≡ (if nat_eq.beq 9 tag then some (6, 1) else HashMap.get tag resting.tag_identities))
unfolding new_queue
keystroke-registers = add_ide_operation-registers resting keystroke left keystroke-handled

keystroke-releases_no_network :
    (left.network_backlog ≡ resting.network_backlog)
    × (left.network_worklist ≡ resting.network_worklist)
keystroke-releases_no_network =
    add_ide_operation-releases_no_network resting keystroke left keystroke-handled

early-replayed :
    queue_after (
      receive_all default_wrap
        (add (record { file_path = "sub" ∷ "note" ∷ []; crdt = typed; row = 1 }) ∷ [])
      >>= λ v. wrap_after (create (ok resting) v))
    ≡ queue_after (
        wrap_after (create (ok resting) default_wrap) >>= λ v.
        receive_all v
          (add (record { file_path = "sub" ∷ "note" ∷ []; crdt = typed; row = 1 }) ∷ []))
early-replayed =
    create-receive_all resting default_wrap
      (add (record { file_path = "sub" ∷ "note" ∷ []; crdt = typed; row = 1 }) ∷ []) refl refl

-- A character typed behind the tombstone of `page`.
abbrev late_letter : Crdt
late_letter = record { id = 4; peer = 2; relation = new_relation 99 3 1 }

page-IsNumbered : IsNumbered page
unfolding HashMap.get
page-IsNumbered j zero other =
    ground (arith, other, same_iff (3, 1) j, same_iff (2, 1) j, same_iff (1, 1) j, same_iff root j)

late_letter-Climbs :
    (a : Identity) × Climbs page.characters (3, 1) a
    × Climbed page late_letter a (same a root) (Insert.add_crdt page 0 late_letter)
unfolding HashMap.get same is_line_break
late_letter-Climbs =
    add_crdt-Climbs page 0 late_letter page-IsWellFormed page-IsNumbered refl refl refl refl refl

-- "b" behind a tombstone.
abbrev shortened : SharFile
shortened = record {
  file_path = [];
  characters =
      ((2, 1), new_relation 98 0 0)
      ∷ ((1, 1), record { value = 97; parent_id = 0; parent_peer = 0; deleted = true })
      ∷ (root, new_relation 0 0 0)
      ∷ [];
  projection = (root ∷ (2, 1) ∷ []) ∷ [];
}

shortened-IsWellFormed : IsWellFormed shortened
unfolding HashMap.get breaks_line same is_line_break
shortened-IsWellFormed = record {
  shape = ((refl, (refl, tt)), tt);
  counts = λ k. ground (arith, same_iff root k, same_iff (1, 1) k, same_iff (2, 1) k);
  rooted = (refl, inr (_, refl), (refl, inr (_, refl), (refl, inl refl, tt)));
  sentinel = refl;
}

abbrev late_break : Crdt
late_break = record { id = 3; peer = 2; relation = new_relation 10 1 1 }

late_break-displaces :
    ((Insert.add_crdt shortened 0 late_break).0.projection
      ≡ ((3, 2) ∷ root ∷ (2, 1) ∷ []) ∷ [] ∷ [])
    × ¬ IsWellFormed (Insert.add_crdt shortened 0 late_break).0
unfolding HashMap.get same is_line_break find_tombstone goes_before
late_break-displaces =
    break_under_tombstone-displaces shortened 0 late_break (root ∷ (2, 1) ∷ []) [] 0
      shortened-IsWellFormed refl refl refl refl refl (omega arith) refl

abbrev break_one : Crdt
break_one = record { id = 4; peer = 1; relation = new_relation 10 2 1 }

abbrev break_two : Crdt
break_two = record { id = 4; peer = 2; relation = new_relation 10 2 1 }

break_one-IsNewBreak : IsNewBreak page (2, 1) break_one
unfolding HashMap.get same is_line_break
break_one-IsNewBreak = record { under = refl; unknown = refl; visible = refl; breaks = refl }

break_two-IsNewBreak : IsNewBreak page (2, 1) break_two
unfolding HashMap.get same is_line_break
break_two-IsNewBreak = record { under = refl; unknown = refl; visible = refl; breaks = refl }

break_one-break_two : identity_of break_one ≢ identity_of break_two
break_one-break_two e = absurd (ground arith)

breaks-differ :
    let two_last = (Insert.add_crdt (Insert.add_crdt page 0 break_one).0 1 break_two).0 in
    let one_last = (Insert.add_crdt (Insert.add_crdt page 2 break_two).0 3 break_one).0 in
    (document two_last ≡ root ∷ (1, 1) ∷ (2, 1) ∷ (4, 2) ∷ (4, 1) ∷ [])
    × (document one_last ≡ root ∷ (1, 1) ∷ (2, 1) ∷ (4, 1) ∷ (4, 2) ∷ [])
    × (document two_last ≢ document one_last)
unfolding HashMap.get same
breaks-differ =
    concurrent_breaks_differ page (2, 1) (root ∷ (1, 1) ∷ []) [] break_one break_two 0 1 2 3
      page-IsWellFormed refl refl refl break_one-IsNewBreak break_two-IsNewBreak break_one-break_two
