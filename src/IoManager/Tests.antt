-- ===== src/IoManager/Tests.antt =====
-- The theorems on IOManager at concrete tables.
use phase.Base.{◌≡◌, refl, true, false, none, some, [], ◌∷◌, ◌++◌, set}
use phase.IoManager.State.{
  fiber, write_event, FdContext, IoManager, empty_context, new_context, cancel_all,
}
use phase.IoManager.Pending.{Inv, all_armed, Cancels, cancel_event-Inv}
use phase.IoManager.Dispatch.{cancel_all-Inv, woken, left}

-- Descriptor 0 has nothing to wait for; fiber 5 waits to write descriptor 1.
abbrev writer : FdContext
writer = record {
  read = empty_context;
  write = record { scheduler = some 1; fiber = some 5; cb = none };
  fd = 1;
  read_on = false;
  write_on = true;
}

abbrev table : IoManager
table = record { contexts = new_context 0 ∷ writer ∷ []; pending_event_count = 1; scheduled = [] }

table-Inv : Inv table
table-Inv = record { valid = (refl, (refl, tt)); counted = unfold all_armed in refl }

cancel_event-Inv_example : Cancels table 1 write_event false
cancel_event-Inv_example = cancel_event-Inv table 1 write_event false table-Inv

cancel_all-Inv_example :
    (m' : IoManager) × (cancel_all table 1 false ≡ some (true, m'))
    × Inv m'
    × (m'.scheduled ≡ table.scheduled ++ woken writer writer.read_on writer.write_on)
    × (m'.contexts ≡ set table.contexts 1 (left writer writer.read_on writer.write_on))
cancel_all-Inv_example = cancel_all-Inv table 1 writer table-Inv refl refl
