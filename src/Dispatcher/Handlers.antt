-- ===== src/Dispatcher/Handlers.antt =====
-- Registering and selecting handlers.
use myflowhub_core.Common.{
  ℕ, ◌≤◌, ◌≡◌, ◌≢◌, ◌⊎◌, ◌↔◌, Option, none, some, true, nat_instance, lookup, lookup-insert,
  lookup-insert_self, Option-cases, inl, inr, arith,
}
use myflowhub_core.Header.{IHeader, sub_proto}
use myflowhub_core.Dispatcher.{
  SubProcess, Dispatcher, Base, new_dispatcher, register_handler, register_default_handler,
  select_handler,
}

-- Every handler stands under its own number, which a header can carry.
abbrev pub HandlersOwn : Dispatcher → Type 0
HandlersOwn p = (n : ℕ) (h : SubProcess) → lookup n p.handlers ≡ some h → (h.number ≡ n) × (n ≤ 63)

-- RegisterHandler succeeds exactly for a handler whose number is at most 63 and not taken, and whose
-- Init answers true; then headers with its number select it. If it fails nothing changes, and in
-- either case the handlers under other numbers and the fallback stay.
pub register_handler_lem :
    (h : SubProcess) (p : Dispatcher)
    → let (p', e) = register_handler (some h) p in
      ((e ≡ none) ↔ ((h.number ≤ 63) × (h.init ≡ true) × (lookup h.number p.handlers ≡ none)))
      × (e ≡ none
          → (hdr : IHeader) → sub_proto hdr ≡ h.number
          → (select_handler (some hdr) p').0 ≡ some h)
      × (e ≢ none → p' ≡ p)
      × ((n : ℕ) → n ≢ h.number → lookup n p'.handlers ≡ lookup n p.handlers)
      × (p'.fallback ≡ p.fallback)
unfolding register_handler select_handler
register_handler_lem h p = (
  (λ e. ground arith, λ e. ground arith),
  λ e hdr s. ground (arith, lookup-insert_self h.number h p.handlers),
  λ e. ground arith,
  λ n ne. ground (arith, lookup-insert h.number n h p.handlers),
  ground arith,
)

-- The handlers stay under their own numbers in whatever order handlers are registered.
pub register-HandlersOwn :
    (h : Option SubProcess) (p : Dispatcher)
    → HandlersOwn p
    → HandlersOwn (register_handler h p).0 × HandlersOwn (register_default_handler h p)
unfolding register_handler register_default_handler
register-HandlersOwn none p own = (own, own)
register-HandlersOwn (some h) p own =
    (λ n g e. ground (arith, own n g, lookup-insert h.number n h p.handlers), own)

pub new-HandlersOwn : (b : Base) → HandlersOwn (new_dispatcher b)
unfolding new_dispatcher lookup
new-HandlersOwn b n h e = cc

-- The handler that a frame gets is the default one or has the number in the header.
pub select_handler_lem :
    (hdr : IHeader) (p : Dispatcher) (h : SubProcess)
    → HandlersOwn p
    → (select_handler (some hdr) p).0 ≡ some h
    → (h.number ≡ sub_proto hdr) ⊎ (p.fallback ≡ some h)
unfolding select_handler
select_handler_lem hdr p h own e = elim (Option-cases (lookup (sub_proto hdr) p.handlers)) [
  | inl n ↦ inr (ground arith)
  | inr (g, q) ↦ inl (ground (arith, own (sub_proto hdr) g q))
]
