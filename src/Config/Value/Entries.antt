-- ===== src/Config/Value/Entries.antt =====
-- The entries of an object: `get` after `insert`, the order of the keys, and objects that agree.
use atomr.Base.{
  ◌≡◌, refl, sym, inl, inr, none, some, false, arith, text_beq, text_beq_iff, text_leb,
  text_leb_refl, text_leb_total, text_leb_trans, text_leb_antisymm, if◌then◌else◌, Bool-cases, Text,
}
use atomr.Config.Value.{
  ConfigValue, null, bool, int, float, string, array, object, Items, no_items, item, Fields,
  no_fields, field, get, put,
}

pub get-put :
    (j k : Text) (v : ConfigValue) (f : Fields)
    → get j (put k v f) ≡ (if text_beq j k then some v else get j f)
unfolding get put
get-put j k v no_fields = refl
get-put j k v (field i w f) =
    ground (arith, get-put j k v f, text_beq_iff j k, text_beq_iff j i, text_beq_iff k i)

-- Every key lies above `k`.
abbrev pub Above : Text → Fields → Type 0
Above k no_fields = Unit
Above k (field j w f) = (text_leb j k ≡ false) × Above k f

-- The keys ascend, at every depth.
unfoldable mutual
  pub IsValid : ConfigValue → Type 0
  IsValid null = Unit
  IsValid (bool b) = Unit
  IsValid (int i) = Unit
  IsValid (float x) = Unit
  IsValid (string s) = Unit
  IsValid (array items) = AreValid items
  IsValid (object fields) = IsOrdered fields

  pub AreValid : Items → Type 0
  AreValid no_items = Unit
  AreValid (item v items) = IsValid v × AreValid items

  pub IsOrdered : Fields → Type 0
  IsOrdered no_fields = Unit
  IsOrdered (field k v f) = Above k f × IsValid v × IsOrdered f

pub Above-trans : (i k : Text) (f : Fields) → text_leb k i ≡ false → Above k f → Above i f
Above-trans i k no_fields h a = tt
Above-trans i k (field j w f) h (a, r) =
    (ground (arith, text_leb_trans j i k, text_leb_total k i h), Above-trans i k f h r)

pub get-Above : (k : Text) (f : Fields) → Above k f → get k f ≡ none
unfolding get
get-Above k no_fields a = refl
get-Above k (field j w f) (a, r) =
    ground (arith, get-Above k f r, text_beq_iff k j, text_leb_refl k)

pub put-Above :
    (i k : Text) (v : ConfigValue) (f : Fields)
    → text_leb k i ≡ false
    → Above i f
    → Above i (put k v f)
unfolding put
put-Above i k v no_fields h a = (h, tt)
put-Above i k v (field j w f) h (a, r) = elim (Bool-cases (text_beq k j)) [
  | inl e ↦ rw e (a, r)
  | inr e ↦ rw e (elim (Bool-cases (text_leb k j)) [
    | inl l ↦ rw l (h, (a, r))
    | inr l ↦ rw l (a, put-Above i k v f h r)
  ])
]

pub put-IsOrdered :
    (k : Text) (v : ConfigValue) (f : Fields) → IsValid v → IsOrdered f → IsOrdered (put k v f)
unfolding put IsOrdered
put-IsOrdered k v no_fields h o = (tt, h, tt)
put-IsOrdered k v (field j w f) h (a, hw, o) = elim (Bool-cases (text_beq k j)) [
  | inl e ↦ rw e (a, h, o)
  | inr e ↦ rw e (elim (Bool-cases (text_leb k j)) [
    | inl l ↦
        let above : text_leb j k ≡ false =
          ground (arith, text_leb_antisymm k j, text_beq_iff k j) in
        rw l ((above, Above-trans k j f above a), h, (a, hw, o))
    | inr l ↦ rw l (put-Above j k v f l a, hw, put-IsOrdered k v f h o)
  ])
]

-- What stands under a key of a valid object is valid.
pub get-IsValid :
    (k : Text) (v : ConfigValue) (f : Fields) → IsOrdered f → get k f ≡ some v → IsValid v
unfolding get IsOrdered
get-IsValid k v no_fields o e = absurd (cc e)
get-IsValid k v (field j w f) (a, h, o) e = elim (Bool-cases (text_beq k j)) [
  | inl t ↦ let same : w ≡ v = ground arith in rw (sym same) h
  | inr t ↦ get-IsValid k v f o (ground arith)
]

present-Above :
    (j k : Text) (v : ConfigValue) (f : Fields)
    → Above k f
    → get j f ≡ some v
    → text_leb j k ≡ false
unfolding get
present-Above j k v no_fields a e = absurd (cc e)
present-Above j k v (field i w f) (a, r) e =
    ground (arith, text_beq_iff j i, present-Above j k v f r)

-- Objects whose keys ascend are determined by `get`.
pub get_ext : (f g : Fields) → IsOrdered f → IsOrdered g → ((i : Text) → get i f ≡ get i g) → f ≡ g
unfolding get IsOrdered
get_ext no_fields no_fields o p same = refl
get_ext no_fields (field k w g) o p same = absurd (ground (arith, same k, text_beq_iff k k))
get_ext (field j v f) no_fields o p same = absurd (ground (arith, same j, text_beq_iff j j))
get_ext (field j v f) (field k w g) (a, hv, o) (b, hw, p) same =
    let first : j ≡ k = ground (
      arith,
      same j,
      same k,
      text_beq_iff j j,
      text_beq_iff k k,
      text_beq_iff j k,
      text_beq_iff k j,
      present-Above j k v g b,
      present-Above k j w f a,
      text_leb_total j k,
    ) in
    let value : v ≡ w = ground (arith, same j, text_beq_iff j j, text_beq_iff j k) in
    let rest : f ≡ g = get_ext f g o p (λ i.
      ground
        (arith, same i, text_beq_iff i j, text_beq_iff i k, get-Above j f a, get-Above k g b)) in
    cc (first, value, rest)
