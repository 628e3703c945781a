-- ===== src/Examples/EventBus.antt =====
-- A bus with two subscriptions, one of which is taken back.
use myflowhub_core.Common.{ℕ, ◌≡◌, refl, List, [], ◌∷◌, some, codes, text_instance}
use myflowhub_core.Conn.{pos, negsuc}
use myflowhub_core.Strings.{trim_space, to_lower}
use myflowhub_core.EventBus.{Options, normalize, token_of, show_nat, show_digits}
use myflowhub_core.EventBus.Spec.{Op, subscribes, unsubscribes, replay, new_spec}
use myflowhub_core.EventBus.Tokens.{token_injective}

abbrev options : Options
options = record { default_buffer = pos 2; default_workers = negsuc 0 }

-- Two subscriptions to "a", in two spellings; the first is taken back.
abbrev ops : List Op
ops =
    subscribes (codes "a") (some 5)
    ∷ subscribes (codes " A ") (some 6)
    ∷ unsubscribes (codes "A") (codes "a#1")
    ∷ []

second_token : token_of (codes "a") 12 ≡ codes "a#12"
unfolding token_of show_nat show_digits
second_token = refl

-- The handler that is left.
one_left : (replay ops new_spec).subs (codes "a") (codes "a#2") ≡ some 6
unfolding normalize token_of show_nat show_digits to_lower trim_space
one_left = refl

token_injective_example : ◌≡◌ {A = ℕ} 12 12
token_injective_example = token_injective (codes "a") 12 12 refl
