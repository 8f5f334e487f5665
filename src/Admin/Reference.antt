-- ===== src/Admin/Reference.antt =====
-- A server that behaves as the interface of the admin routes asks: a hash is the list of what was
-- written to it.
use dip.Prelude.{
  ℕ, ◌+◌, ◌≡◌, refl, ◌∙◌, List, [], ◌∷◌, ◌++◌, Option, none, some, Bool, true, false, ◌||◌, ◌==◌,
  if◌then◌else◌, arith, Text, text_eq,
}
use dip.Redis.{
  Entry, Command, hset, hincrby, rpush, incr, sadd, expire, delete, execute, Mapping, Field, Value,
  number, put, put_all, added, is_none, number_of,
}
use dip.Admin.{Database}

pub record Held : Type 0 where
  pub mapping : Mapping
  pub present : Bool
  pub items : List Value
  pub counter : ℕ
  pub members : ℕ → Bool
  pub ttl : Option ℕ

abbrev pub nothing : Held
nothing = record {
  mapping = [];
  present = false;
  items = [];
  counter = 0;
  members = λ t. false;
  ttl = none;
}

abbrev pub fields_of : Mapping → Field → Option Value
fields_of m = put_all m (λ f. none)

abbrev pub entry_of : Held → Entry
entry_of h = record {
  present = h.present;
  fields = fields_of h.mapping;
  size = added h.mapping (λ f. none);
  items = h.items;
  counter = h.counter;
  members = h.members;
  ttl = h.ttl;
}

abbrev pub apply : Command → Held → Held
apply (hset m) h = record h { mapping = h.mapping ++ m; present = true }
apply (hincrby f n) h = record h {
  mapping = h.mapping ++ (f, number (number_of (fields_of h.mapping f) + n)) ∷ [];
  present = true;
}
apply (rpush v) h = record h { present = true; items = h.items ++ v ∷ [] }
apply incr h = record h { present = true; counter = h.counter + 1 }
apply (sadd t) h = record h { present = true; members = λ u. t == u || h.members u }
apply (expire seconds) h = if h.present then (record h { ttl = some seconds }) else h
apply delete h = nothing

put_all-append :
    (xs ys : Mapping) (fields : Field → Option Value)
    → put_all (xs ++ ys) fields ≡ put_all ys (put_all xs fields)
put_all-append [] ys fields = refl
put_all-append ((f, v) ∷ xs) ys fields = put_all-append xs ys (put f v fields)

added-append :
    (xs ys : Mapping) (fields : Field → Option Value)
    → added (xs ++ ys) fields ≡ added xs fields + added ys (put_all xs fields)
added-append [] ys fields = omega arith
added-append ((f, v) ∷ xs) ys fields = omega (arith, added-append xs ys (put f v fields))

entry_of-if :
    (b : Bool) (x y : Held) → entry_of (if b then x else y) ≡ (if b then entry_of x else entry_of y)
entry_of-if true x y = refl
entry_of-if false x y = refl

added_one :
    (m : Mapping) (f : Field) (v : Value)
    → added (m ++ (f, v) ∷ []) (λ g. none) ≡ added m (λ g. none) + is_none (fields_of m f)
added_one m f v = omega (arith, added-append m ((f, v) ∷ []) (λ g. none))

entry_of-apply : (c : Command) (h : Held) → entry_of (apply c h) ≡ execute c (entry_of h)
entry_of-apply (hset m) h =
    rw (put_all-append h.mapping m (λ f. none), added-append h.mapping m (λ f. none)) refl
entry_of-apply (hincrby f n) h =
    let v = number (number_of (fields_of h.mapping f) + n) in
    rw (put_all-append h.mapping ((f, v) ∷ []) (λ g. none), added_one h.mapping f v) refl
entry_of-apply (rpush v) h = refl
entry_of-apply incr h = refl
entry_of-apply (sadd t) h = refl
entry_of-apply (expire seconds) h = entry_of-if h.present (record h { ttl = some seconds }) h
entry_of-apply delete h = refl

abbrev pub Store : Type 0
Store = (Text → Held) × List Text

pub entry_in :
    (k k' : Text) (c : Command) (s : Text → Held)
    → entry_of (if text_eq k k' then apply c (s k) else s k')
      ≡ (if text_eq k k' then execute c (entry_of (s k)) else entry_of (s k'))
entry_in k k' c s =
    entry_of-if (text_eq k k') (apply c (s k)) (s k') ∙ rw (entry_of-apply c (s k)) refl

abbrev pub reference : Database
reference = record {
  State = Store;
  entry = λ k s. entry_of (s.0 k);
  command = λ k c s. ((λ k'. if text_eq k k' then apply c (s.0 k) else s.0 k'), s.1);
  flushdb = λ s. ((λ k. nothing), []);
  scan = λ s. s.1;
  hgetall = λ k s. (s.0 k).mapping;
  entry-command = λ k k' c s. entry_in k k' c s.0;
  entry-flushdb = λ k s. refl;
  hgetall_fields = λ k s f. refl;
  hgetall_size = λ k s. refl;
}

abbrev pub empty_store : List Text → Store
empty_store keys = ((λ k. nothing), keys)
