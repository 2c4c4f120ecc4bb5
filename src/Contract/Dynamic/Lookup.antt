-- ===== src/Contract/Dynamic/Lookup.antt =====
-- crates/aelf-contract/src/lib.rs: the method that a name finds.
use aelf_web3_rust.Base.{
  ◌≡◌, ◌≢◌, refl, ap, inl, inr, List, [], ◌∷◌, ◌++◌, append_assoc, flatten, Option, none, some,
  Bool-cases, Option-cases, true, false, list_eq, list_eq_refl, list_eq→eq, All, arith,
}
use aelf_web3_rust.Base.Text.{Text}
use aelf_web3_rust.Contract.Reflect.{Reflect}
use aelf_web3_rust.Contract.Dynamic.{find_method, find_in_services}

differs : (s t : Text) → list_eq s t ≡ false → s ≢ t
differs s t e same = let equal : list_eq s t ≡ true = rw same (list_eq_refl t) in ground arith

module _ (reflect : Reflect) where
  open reflect use {MethodDescriptor, method_name}

  abbrev pub Other : Text → MethodDescriptor → Type 0
  Other name m = method_name m ≢ name

  -- `m` is the first of the methods that has the name.
  abbrev pub IsFirst : Text → List MethodDescriptor → MethodDescriptor → Type 0
  IsFirst name methods m =
      (before after : List MethodDescriptor) × (methods ≡ before ++ m ∷ after)
      × All (Other name) before
      × (method_name m ≡ name)

  -- The first method of the name, or no method of the name.
  abbrev pub Found : Text → List MethodDescriptor → Option MethodDescriptor → Type 0
  Found name methods (some m) = IsFirst name methods m
  Found name methods none = All (Other name) methods

  Found-cons :
      (name : Text) (x : MethodDescriptor) (ms : List MethodDescriptor)
      (o : Option MethodDescriptor)
      → Other name x
      → Found name ms o
      → Found name (x ∷ ms) o
  Found-cons name x ms none other h = (other, h)
  Found-cons name x ms (some m) other (before, after, e, others, named) =
      (x ∷ before, after, ap (λ (l : List MethodDescriptor). x ∷ l) e, (other, others), named)

  Found-find_method :
      (name : Text) (ms : List MethodDescriptor) → Found name ms (find_method reflect name ms)
  unfolding find_method
  Found-find_method name [] = tt
  Found-find_method name (x ∷ ms) = elim (Bool-cases (list_eq (method_name x) name)) [
    | inl e ↦ rw (find_method, e) ([], ms, refl, tt, list_eq→eq (method_name x) name e)
    | inr e ↦
        rw (find_method, e)
          (Found-cons name x ms _ (differs (method_name x) name e) (Found-find_method name ms))
  ]

  Found-append :
      (name : Text) (xs ys : List MethodDescriptor) (o : Option MethodDescriptor)
      → All (Other name) xs
      → Found name ys o
      → Found name (xs ++ ys) o
  Found-append name [] ys o _ h = h
  Found-append name (x ∷ xs) ys o (other, others) h =
      Found-cons name x (xs ++ ys) o other (Found-append name xs ys o others h)

  Found-left :
      (name : Text) (xs ys : List MethodDescriptor) (m : MethodDescriptor)
      → IsFirst name xs m
      → IsFirst name (xs ++ ys) m
  Found-left name xs ys m (before, after, e, others, named) =
      (before, after ++ ys, rw e (append_assoc before (m ∷ after) ys), others, named)

  -- The method that is found is the first of its name in the services' methods, one service after the
  -- other, and where none is found there is no method of that name.
  pub find_in_services-Found :
      (name : Text) (services : List (List MethodDescriptor))
      → Found name (flatten services) (find_in_services reflect name services)
  unfolding find_in_services flatten
  find_in_services-Found name [] = tt
  find_in_services-Found name (service ∷ rest) =
      elim (Option-cases (find_method reflect name service)) [
        | inr (m, e) ↦
            rw (find_in_services, e)
              (Found-left name service (flatten rest) m (rw e at (Found-find_method name service)))
        | inl e ↦
            rw (find_in_services, e)
              (Found-append name service (flatten rest) _ (rw e at (Found-find_method name service))
                (find_in_services-Found name rest))
      ]
