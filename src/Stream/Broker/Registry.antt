-- ===== src/Stream/Broker/Registry.antt =====
-- Which source a run opens: `register_event_source`, `open_event_source` and `open_dedup_store` of
-- src/fl_op/stream/broker.py. A factory is a value of the type `A`.
use fl_op.Base.{
  ◌≡◌, Option, none, some, Bool, true, false, ◌&&◌, ◌||◌, not, List, [], ◌∷◌, Text, text_eq,
  contains, if◌then◌else◌, ◌==◌, arith, keep, Bool-cases, inl, inr,
}
use fl_op.Base.Dict.{Dict, get, put, get-put}
use fl_op.Base.Strip.{strip, is_empty}

-- `_EVENT_SOURCE_FACTORIES` and `_DEDUP_EVENT_SOURCE_KINDS`
pub record Registry (A : Type 0) : Type 0 where
  pub factories : Dict Text A
  pub dedup_kinds : List Text

-- `set.add` and `set.discard`
unfoldable pub set_kind : Bool → Text → List Text → List Text
set_kind uses kind kinds =
    let others = keep (λ other. not (other == kind)) kinds in if uses then kind ∷ others else others

contains-without :
    (kind other : Text) (kinds : List Text)
    → contains other (keep (λ k. not (k == kind)) kinds)
      ≡ (not (other == kind) && contains other kinds)
unfolding contains
contains-without kind other [] = ground arith
contains-without kind other (k ∷ kinds) = ground (
  arith,
  contains-without kind other kinds,
  text_eq.agrees_iff k other,
  text_eq.agrees_iff k kind,
  text_eq.agrees_iff other kind,
)

contains-set_kind :
    (uses : Bool) (kind other : Text) (kinds : List Text)
    → contains other (set_kind uses kind kinds)
      ≡ (if kind == other then uses else contains other kinds)
unfolding set_kind
contains-set_kind true kind other kinds =
    unfold contains in
    ground (
      arith,
      contains-without kind other kinds,
      text_eq.agrees_iff kind other,
      text_eq.agrees_iff other kind,
    )
contains-set_kind false kind other kinds = ground (
  arith,
  contains-without kind other kinds,
  text_eq.agrees_iff kind other,
  text_eq.agrees_iff other kind,
)

module _ {A : Type 0} where
  -- `register_event_source`, with none for its ValueError
  unfoldable pub register_event_source : Text → A → Bool → Registry A → Option (Registry A)
  unfolding set_kind
  register_event_source kind factory uses_dedup_store r =
      if is_empty kind || not (strip kind == kind)
      then none
      else some (record {
        factories = put kind factory r.factories;
        dedup_kinds = set_kind uses_dedup_store kind r.dedup_kinds;
      })

  -- `open_event_source`, where EVENT_SOURCE_KIND is `kind`, up to the call of the factory; none for
  -- its ValueError
  unfoldable pub open_event_source : Text → Registry A → Option A
  open_event_source kind r = get kind r.factories

  -- `open_dedup_store`: whether there is a store
  unfoldable pub opens_dedup_store : Text → Bool → Registry A → Bool
  opens_dedup_store kind enabled r = contains kind r.dedup_kinds && enabled

  -- A source that is registered is the one that its kind opens, with a store exactly if it asks for
  -- one and stores are enabled; every other kind opens what it opened before. Only a kind that is
  -- empty or has white space around it is refused.
  register_event_source-opens :
      (kind other : Text) (factory : A) (uses enabled : Bool) (r after : Registry A)
      → register_event_source kind factory uses r ≡ some after
      → (open_event_source other after
          ≡ (if kind == other then some factory else open_event_source other r))
        × (opens_dedup_store other enabled after
            ≡ (if kind == other then uses && enabled else opens_dedup_store other enabled r))
  unfolding register_event_source open_event_source opens_dedup_store
  register_event_source-opens kind other factory uses enabled r after e =
      let put_kind = get-put kind other factory r.factories in
      let set_kinds = contains-set_kind uses kind other r.dedup_kinds in
      elim (Bool-cases (is_empty kind || not (strip kind == kind))) [
        | inl refused ↦ absurd (cc)
        | inr trimmed ↦ ground (arith, put_kind, set_kinds, trimmed, e)
      ]
