-- ===== src/Context.antt =====
-- What a handler of a call works on: the net, and the memory of the calling function with the
-- objects behind it.
use granite.Common.Outcome.{Outcome, ok, and_then, Run}
use granite.Objects.{Objects}
use granite.Memory.{Memory, Store}

pub record Context (Net : Type 0) : Type 0 where
  pub net : Net
  pub store : Store

module _ {Net : Type 0} {A : Type 0} where
  abbrev pub on_net : Run Net A → Run (Context Net) A
  on_net m c = and_then (m c.net) λ (a, net'). ok (a, record c { net = net' })

  abbrev pub on_store : Run Store A → Run (Context Net) A
  on_store m c = and_then (m c.store) λ (a, store'). ok (a, record c { store = store' })

  abbrev pub on_memory : Run Memory A → Run (Context Net) A
  on_memory m c =
      and_then (m c.store.memory)
        λ (a, memory'). ok (a, record c { store = record (c.store) { memory = memory' } })

  abbrev pub on_objects : Run Objects A → Run (Context Net) A
  on_objects m c =
      and_then (m c.store.objects)
        λ (a, objects'). ok (a, record c { store = record (c.store) { objects = objects' } })

  -- methods that only read
  abbrev pub read_memory : (Memory → Outcome A) → Run (Context Net) A
  read_memory f c = and_then (f c.store.memory) λ a. ok (a, c)

  abbrev pub read_objects : (Objects → Outcome A) → Run (Context Net) A
  read_objects f c = and_then (f c.store.objects) λ a. ok (a, c)
