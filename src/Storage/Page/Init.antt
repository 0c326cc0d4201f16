-- ===== src/Storage/Page/Init.antt =====
-- Page::init.
use microsql.Base.{ℕ, ◌-◌, ◌≤◌, ◌≡◌, refl, ◌∙◌, none, arith, ltb, if◌then◌else◌}
use microsql.Base.Memory.{read16-write16_self, read16-write16_ne, write16_outside}
use microsql.Storage.Page.{Page, page_size, header_size, num_slots, free_ptr, free_space, init}
use microsql.Storage.Page.Slots.{slot_view, IsValid, free_space-IsValid, slot_view_beyond}

module _ (p : Page) (id : ℕ) where
  num_slots-init : num_slots (init p id) ≡ 0
  unfolding num_slots init
  num_slots-init = read16-write16_ne _ 6 _ 4 (omega arith) ∙ read16-write16_self _ 4 0 (omega arith)

  free_ptr-init : free_ptr (init p id) ≡ page_size
  unfolding free_ptr init
  free_ptr-init = read16-write16_self _ 6 page_size (omega arith)

  pub init-IsValid : IsValid (init p id)
  init-IsValid = record {
    room = omega (arith, num_slots-init, free_ptr-init);
    inside = omega (arith, free_ptr-init);
    above = λ i l. absurd (omega (arith, l.0, num_slots-init));
    below = λ i l. absurd (omega (arith, l.0, num_slots-init));
    apart = λ i j l k ne. absurd (omega (arith, l.0, num_slots-init));
  }

  -- Whatever the memory held, init makes a sound page with no slots and all space but the header
  -- free.
  pub init_empty :
      IsValid (init p id)
      × (num_slots (init p id) ≡ 0)
      × ((j : ℕ) → slot_view (init p id) j ≡ none)
      × (free_space (init p id) ≡ page_size - header_size)
  init_empty = (
    init-IsValid,
    num_slots-init,
    λ j. slot_view_beyond (init p id) j (omega (arith, num_slots-init)),
    omega (arith, free_space-IsValid init-IsValid, num_slots-init, free_ptr-init),
  )

  -- The memory behind the page.
  pub init_outside : (a : ℕ) → page_size ≤ a → (init p id).bytes a ≡ p.bytes a
  unfolding init
  init_outside a h =
      write16_outside _ 6 page_size a (omega arith) ∙ write16_outside _ 4 0 a (omega arith) ∙ kept
    where
      kept : (if ltb a page_size then 0 else p.bytes a) ≡ p.bytes a
      kept = ground arith

  pub page_id-init : (init p id).page_id ≡ id
  unfolding init
  page_id-init = refl
