-- ===== src/Permission/Parse.antt =====
-- The lists of permissions in a configuration value.
use myflowhub_core.Common.{
  ◌≡◌, refl, ap, ◌∙◌, List, [], ◌∷◌, ◌++◌, map, false, not, Text, is_empty, filter, All, arith,
}
use myflowhub_core.Strings.{trim_space, trim_left, trim_right, split}
use myflowhub_core.Strings.Laws.{IsTrimmed, trim_space_idem, Lacks, split_lacking, split-append}
use myflowhub_core.Permission.{parse_list}

-- A permission that can stand in such a list.
abbrev pub IsListable : Text → Type 0
IsListable p = IsTrimmed p × (is_empty p ≡ false) × Lacks b',' p

-- The list as a configuration file writes it.
abbrev pub written : List Text → Text
written [] = []
written (p ∷ []) = p
written (p ∷ q ∷ ps) = p ++ b',' ∷ written (q ∷ ps)

abbrev kept : List Text → List Text
kept ps = filter (λ p. not (is_empty p)) (map trim_space ps)

kept_listable : (p : Text) (ps : List Text) → IsListable p → kept (p ∷ ps) ≡ p ∷ kept ps
kept_listable p ps (trimmed, full, lacks) = rw (trimmed, full)

-- parseList reads back a list of permissions that are trimmed, not empty and without commas.
pub parse_list-written : (ps : List Text) → All IsListable ps → parse_list (written ps) ≡ ps
unfolding parse_list
parse_list-written [] h = unfold trim_space trim_left trim_right split in refl
parse_list-written (p ∷ []) (h, hs) = rw (split_lacking b',' p h.2) (kept_listable p [] h)
parse_list-written (p ∷ q ∷ ps) (h, hs) =
    rw (split-append b',' p (written (q ∷ ps)) h.2)
      (kept_listable p _ h ∙ ap (◌∷◌ p) (parse_list-written (q ∷ ps) hs))

kept_entries : (ps : List Text) → All (λ p. IsTrimmed p × (is_empty p ≡ false)) (kept ps)
kept_entries [] = tt
kept_entries (p ∷ ps) = ground (arith, trim_space_idem p, kept_entries ps)

-- Whatever the value, every permission that parseList returns is trimmed and not empty.
pub parse_list_entries :
    (raw : Text) → All (λ p. IsTrimmed p × (is_empty p ≡ false)) (parse_list raw)
unfolding parse_list
parse_list_entries raw = kept_entries (split b',' raw)
