-- ===== src/Override/Pruned.antt =====
-- What is left once objects are removed from a value without going into the kept ones.
use east_api.Prelude.{
  ◌≡◌, refl, sym, ◌∙◌, ap, subst, Bool, true, false, not, Option, none, some, if_true,
}
use east_api.Override.{
  Json, null, flag, number, string, array, object, Items, no_items, item, Fields,
}
use east_api.Override.Conditions.{Reader}
use east_api.Override.Prune.{
  PruneOptions, Outcome, failed, dropped, kept, add_item, as_array, as_object, should_prune_object,
  prune_checked, prune_node, prune_items, prune_fields,
}

module _ (reader : Reader) (options : PruneOptions) (context : Option Json) where
  -- No object that the arrays of a value reach passes the conditions.
  abbrev mutual
    pub Sifted : Json → Type 0
    Sifted null = Unit
    Sifted (flag b) = Unit
    Sifted (number n) = Unit
    Sifted (string s) = Unit
    Sifted (array is) = AllSifted is
    Sifted (object fs) = should_prune_object reader options context fs ≡ some false

    pub AllSifted : Items → Type 0
    AllSifted no_items = Unit
    AllSifted (item v is) = Sifted v × AllSifted is

  abbrev IfKept : Outcome → Type 0
  IfKept failed = Unit
  IfKept dropped = Unit
  IfKept (kept v) = Sifted v

  abbrev IfSome : Option Items → Type 0
  IfSome none = Unit
  IfSome (some is) = AllSifted is

  add_item-IfSome :
      (o : Outcome) (is : Option Items) → IfKept o → IfSome is → IfSome (add_item o is)
  add_item-IfSome failed is h k = tt
  add_item-IfSome dropped is h k = k
  add_item-IfSome (kept v) none h k = tt
  add_item-IfSome (kept v) (some is) h k = (h, k)

  as_array-IfKept : (is : Option Items) → IfSome is → IfKept (as_array is)
  as_array-IfKept none h = tt
  as_array-IfKept (some is) h = h

  -- A root that is an array has only items that are sifted.
  abbrev pub RootSifted : Json → Type 0
  RootSifted (array is) = AllSifted is
  RootSifted _ = Unit

  abbrev pub PrunedOnce : Outcome → Type 0
  PrunedOnce failed = Unit
  PrunedOnce dropped = ⊥
  PrunedOnce (kept v) = RootSifted v × (prune_node reader options context true v ≡ kept v)

  module _ (flat : options.recursive ≡ false) where
    checked-IfKept :
        (fs : Fields) (inside : Outcome) (o : Option Bool)
        → should_prune_object reader options context fs ≡ o
        → IfKept (prune_checked reader options context o false inside fs)
    checked-IfKept fs inside none e = tt
    checked-IfKept fs inside (some true) e = tt
    checked-IfKept fs inside (some false) e =
        subst IfKept (sym (if_true (not options.recursive) (kept (object fs)) inside (ap not flat)))
          e

    mutual
      unfolding prune_node

      prune_node-IfKept : (v : Json) → IfKept (prune_node reader options context false v)
      prune_node-IfKept null = tt
      prune_node-IfKept (flag b) = tt
      prune_node-IfKept (number n) = tt
      prune_node-IfKept (string s) = tt
      prune_node-IfKept (array is) =
          as_array-IfKept (prune_items reader options context is) (prune_items-IfSome is)
      prune_node-IfKept (object fs) =
          checked-IfKept fs (as_object (prune_fields reader options context fs))
            (should_prune_object reader options context fs) refl

      prune_items-IfSome : (is : Items) → IfSome (prune_items reader options context is)
      prune_items-IfSome no_items = tt
      prune_items-IfSome (item v is) =
          add_item-IfSome (prune_node reader options context false v)
            (prune_items reader options context is) (prune_node-IfKept v) (prune_items-IfSome is)

    checked-kept :
        (fs : Fields) (inside : Outcome) (is_root : Bool) (o : Option Bool)
        → o ≡ some false
        → prune_checked reader options context o is_root inside fs ≡ kept (object fs)
    checked-kept fs inside is_root o e =
        ap (λ x. prune_checked reader options context x is_root inside fs) e
        ∙ if_true (not options.recursive) (kept (object fs)) inside (ap not flat)

    mutual
      unfolding prune_node

      Sifted-same : (v : Json) → Sifted v → prune_node reader options context false v ≡ kept v
      Sifted-same null h = refl
      Sifted-same (flag b) h = refl
      Sifted-same (number n) h = refl
      Sifted-same (string s) h = refl
      Sifted-same (array is) h = ap as_array (AllSifted-same is h)
      Sifted-same (object fs) h =
          checked-kept fs (as_object (prune_fields reader options context fs)) false
            (should_prune_object reader options context fs) h

      AllSifted-same : (is : Items) → AllSifted is → prune_items reader options context is ≡ some is
      AllSifted-same no_items h = refl
      AllSifted-same (item v is) (h, k) =
          ap (λ o. add_item o (prune_items reader options context is)) (Sifted-same v h)
          ∙ ap (add_item (kept v)) (AllSifted-same is k)

    -- Where the kept objects are not entered and no condition fails, the root is never dropped, no
    -- object that arrays reach from it and that passes the conditions is left, and a second pruning
    -- changes nothing.
    pub prune_node-PrunedOnce : (v : Json) → PrunedOnce (prune_node reader options context true v)
    unfolding prune_node
    prune_node-PrunedOnce null = (tt, refl)
    prune_node-PrunedOnce (flag b) = (tt, refl)
    prune_node-PrunedOnce (number n) = (tt, refl)
    prune_node-PrunedOnce (string s) = (tt, refl)
    prune_node-PrunedOnce (array is) =
        go (prune_items reader options context is) (prune_items-IfSome is)
      where
        go : (o : Option Items) → IfSome o → PrunedOnce (as_array o)
        go none h = tt
        go (some js) h = (h, ap as_array (AllSifted-same js h))
    prune_node-PrunedOnce (object fs) = go (should_prune_object reader options context fs) refl
      where
        inside : Outcome
        inside = as_object (prune_fields reader options context fs)

        at_root :
            (drop : Bool)
            → prune_checked reader options context (some drop) true inside fs ≡ kept (object fs)
        at_root true = if_true (not options.recursive) (kept (object fs)) inside (ap not flat)
        at_root false = if_true (not options.recursive) (kept (object fs)) inside (ap not flat)

        go :
            (o : Option Bool)
            → should_prune_object reader options context fs ≡ o
            → PrunedOnce (prune_checked reader options context o true inside fs)
        go none e = tt
        go (some drop) e =
            subst PrunedOnce (sym (at_root drop))
              (tt, ap (λ x. prune_checked reader options context x true inside fs) e ∙ at_root drop)
