-- ===== src/Authn/Redis.antt =====
-- authn/jwt/store/redis/redis.go: the store of the blacklist. The client of Redis is a parameter.
use linhub.Authn.{Storer}
use linhub.Authn.Blacklist.{StorerLaws}
use linhub.Base.{
  Bool, Option, Text, [], ap, arith, codes, false, ltb_ℤ, none, pos, refl, some, sym, true, ℕ, ℤ,
  ◌++◌, ◌-ℤ◌, ◌∙◌, ◌∷◌, ◌≡◌, ◌≢◌,
}

-- The commands SET with an expiry, DEL, EXISTS and the closing of the client, each made at a time.
pub record Client (W : Type 0) : Type 0 where
  pub set : ℤ → Text → Text → ℤ → W → Option ℕ × W
  pub del : ℤ → Text → W → (ℤ × Option ℕ) × W
  pub exists : ℤ → Text → W → (ℤ × Option ℕ) × W
  pub close : W → Option ℕ × W

-- wrapperKey.
unfoldable pub wrapper_key : Text → Text → Text
wrapper_key prefix key = prefix ++ key

positive : ℤ × Option ℕ → Bool × Option ℕ
positive (n, some e) = (false, some e)
positive (n, none) = (ltb_ℤ (pos 0) n, none)

-- The methods of Store.
unfoldable pub redis_store : {W : Type 0} → Client W → Text → Storer W
unfolding wrapper_key positive
redis_store cli prefix = record {
  set = λ now key expiration. cli.set now (wrapper_key prefix key) (codes "1") expiration;
  delete = λ now key w. (
    positive (cli.del now (wrapper_key prefix key) w).0,
    (cli.del now (wrapper_key prefix key) w).1,
  );
  check = λ now key w. (
    positive (cli.exists now (wrapper_key prefix key) w).0,
    (cli.exists now (wrapper_key prefix key) w).1,
  );
  close = cli.close;
}

-- What Redis documents, where `Kept k e w` says that the key is kept until `e`: SET with an expiry
-- keeps a key for the duration, EXISTS counts a key that is kept, and neither it nor SET of another
-- key ends that.
pub record ClientLaws {W : Type 0} (cli : Client W) (Kept : Text → ℤ → W → Type 0) : Type 0 where
  pub set_keeps :
      (now e : ℤ) (k v : Text) (w w' : W) → cli.set now k v (e -ℤ now) w ≡ (none, w') → Kept k e w'
  pub set_other :
      (now d e : ℤ) (k k' v : Text) (w : W)
      → k' ≢ k
      → Kept k e w
      → Kept k e (cli.set now k' v d w).1
  pub exists_leaves :
      (now e : ℤ) (k k' : Text) (w : W) → Kept k e w → Kept k e (cli.exists now k' w).1
  pub exists_counts :
      (now e n : ℤ) (k : Text) (w w' : W)
      → Kept k e w
      → ltb_ℤ now e ≡ true
      → cli.exists now k w ≡ ((n, none), w')
      → ltb_ℤ (pos 0) n ≡ true

append_injective : (p a b : Text) → p ++ a ≡ p ++ b → a ≡ b
append_injective [] a b h = h
append_injective (c ∷ p) a b h = append_injective p a b (cc)

positive-found :
    (r : ℤ × Option ℕ) → positive r ≡ (false, none) → (r.1 ≡ none) × (ltb_ℤ (pos 0) r.0 ≡ false)
unfolding positive
positive-found (n, some e) h = let none_of : some e ≡ none = ap (λ q. q.1) h in (none_of, cc)
positive-found (n, none) h = (refl, ap (λ q. q.0) h)

-- The Redis store keeps the promises of a store, for any prefix of its keys, if Redis does what it
-- documents.
pub redis_store-StorerLaws :
    {W : Type 0} (cli : Client W) (prefix : Text) (Kept : Text → ℤ → W → Type 0)
    → ClientLaws cli Kept
    → StorerLaws (redis_store cli prefix) (λ k e w. Kept (wrapper_key prefix k) e w)
unfolding redis_store wrapper_key positive
redis_store-StorerLaws {W = W} cli prefix Kept laws = record {
  set_holds = λ now e k s s' h. laws.set_keeps now e (prefix ++ k) (codes "1") s s' h;
  set_keeps = λ now d e k k' s other h.
      laws.set_other now d e (prefix ++ k) (prefix ++ k') (codes "1") s
        (λ z. other (append_injective prefix k' k z)) h;
  check_keeps = λ now e k k' s h. laws.exists_leaves now e (prefix ++ k) (prefix ++ k') s h;
  check_held = λ now e k s s' h alive z. found now e k s s' h alive z;
}
  where
    found :
        (now e : ℤ) (k : Text) (s s' : W)
        → Kept (wrapper_key prefix k) e s
        → ltb_ℤ now e ≡ true
        → (redis_store cli prefix).check now k s ≡ ((false, none), s')
        → ⊥
    found now e k s s' h alive z =
        let r = cli.exists now (prefix ++ k) s in
        let (fine, none_there) = positive-found r.0 (ap (λ q. q.0) z) in
        let counted =
          laws.exists_counts now e r.0.0 (prefix ++ k) s r.1 h alive
            (λ i. ((r.0.0, fine i), r.1)) in
        let impossible : true ≡ false = sym counted ∙ none_there in absurd (ground arith)
