-- ===== src/Scheduler/Filter/Arguments.antt =====
-- The arguments that CreateFilter of filters/scheduler/fifo.go accepts.
use skipper.Prelude.{◌≡◌, ◌≤◌, List, [], ◌∷◌, some, bind-eq-some, ap, sym, subst, ◌∙◌, ◌↔◌, arith}
use skipper.Prelude.Int.{ℤ, pos, negsuc}
use skipper.Scheduler.Fifo.{Config}
use skipper.Scheduler.Filter.{
  Argument, number, text, anything, int_arg, duration_arg, millisecond, checked_config,
  create_filter,
}

-- The arguments are the three of a configuration that has at least one request at a time and waits
-- at least a millisecond.
abbrev pub Describes : List Argument → Config → Type 0
Describes args c =
    (args
      ≡ number (pos c.max_concurrency)
        ∷ number (pos c.max_queue_size)
        ∷ text (some (pos c.timeout))
        ∷ [])
    × (1 ≤ c.max_concurrency)
    × (millisecond ≤ c.timeout)

checked_config-Describes :
    (cc qs d : ℤ) (c : Config)
    → checked_config cc qs d ≡ some c
    → Describes (number cc ∷ number qs ∷ text (some d) ∷ []) c
unfolding checked_config
checked_config-Describes (pos a) (pos b) (pos d) c h = ground arith
checked_config-Describes (negsuc a) qs d c h = absurd (ground arith)
checked_config-Describes (pos a) (negsuc b) d c h = absurd (ground arith)
checked_config-Describes (pos a) (pos b) (negsuc d) c h = absurd (ground arith)

int_arg-number : (a : Argument) (n : ℤ) → int_arg a ≡ some n → a ≡ number n
int_arg-number (number m) n h = ground arith
int_arg-number (text d) n h = absurd (ground arith)
int_arg-number anything n h = absurd (ground arith)

duration_arg-text : (a : Argument) (d : ℤ) → duration_arg a ≡ some d → a ≡ text (some d)
duration_arg-text (number m) d h = absurd (ground arith)
duration_arg-text (text e) d h = ap text h
duration_arg-text anything d h = absurd (ground arith)

create_filter-Describes :
    (args : List Argument) (c : Config) → create_filter args ≡ some c → Describes args c
unfolding create_filter
create_filter-Describes [] c h = absurd (ground arith)
create_filter-Describes (x ∷ []) c h = absurd (ground arith)
create_filter-Describes (x ∷ y ∷ []) c h = absurd (ground arith)
create_filter-Describes (x ∷ y ∷ z ∷ w ∷ args) c h = absurd (ground arith)
create_filter-Describes (x ∷ y ∷ z ∷ []) c h =
    let (cc, h0, h1) = bind-eq-some (int_arg x) _ h in
    let (qs, h2, h3) = bind-eq-some (int_arg y) _ h1 in
    let (d, h4, h5) = bind-eq-some (duration_arg z) _ h3 in
    let same : x ∷ y ∷ z ∷ [] ≡ number cc ∷ number qs ∷ text (some d) ∷ [] =
      λ i. int_arg-number x cc h0 i ∷ int_arg-number y qs h2 i ∷ duration_arg-text z d h4 i ∷ [] in
    subst (λ as_given. Describes as_given c) (sym same) (checked_config-Describes cc qs d c h5)

Describes-create_filter :
    (args : List Argument) (c : Config)
    → c.close_timeout ≡ 0
    → Describes args c
    → create_filter args ≡ some c
unfolding create_filter checked_config
Describes-create_filter args c z (same, one, long) =
    let accepted : checked_config (pos c.max_concurrency) (pos c.max_queue_size) (pos c.timeout)
        ≡ some c =
      ground arith in
    ap create_filter same ∙ accepted

-- The filter is created exactly from three arguments that describe its configuration: a number from
-- 1 on, a number from 0 on, and the text of a duration of at least a millisecond.
pub create_filter_iff :
    (args : List Argument) (c : Config)
    → c.close_timeout ≡ 0
    → (create_filter args ≡ some c) ↔ Describes args c
create_filter_iff args c z = (create_filter-Describes args c, Describes-create_filter args c z)
