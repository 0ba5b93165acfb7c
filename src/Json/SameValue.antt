-- ===== src/Json/SameValue.antt =====
-- Objects that differ in the order of their members have the same canonical form.
use durable_agent_execution.Json.{Json, true, false, Fields, field, end}
use durable_agent_execution.Prelude.{
  String, ◌≡◌, true, arith, false, ◌≢◌, refl, Bool-cases, ltb, inl, inr, subst, sym,
}
use durable_agent_execution.Json.Canonical.{lt_text, insert_member}
use Prim.Native.Char.{code}
use text.Mathlib.TextEquality.{Char-path}

-- Two names, in the order of Go's strings.
pub data Compared (s t : String) : Type 0 where
  before : lt_text s t ≡ true → lt_text t s ≡ false → Compared s t
  same : s ≡ t → lt_text s t ≡ false → lt_text t s ≡ false → Compared s t
  behind : lt_text s t ≡ false → lt_text t s ≡ true → Compared s t

pub lt_text_trans : (s t u : String) → lt_text s t ≡ true → lt_text t u ≡ true → lt_text s u ≡ true
unfolding lt_text
lt_text_trans String.[] String.[] u h k = absurd (cc h)
lt_text_trans String.[] (String.◌∷◌ d t) String.[] h k = absurd (cc k)
lt_text_trans String.[] (String.◌∷◌ d t) (String.◌∷◌ e u) h k = refl
lt_text_trans (String.◌∷◌ c s) String.[] u h k = absurd (cc h)
lt_text_trans (String.◌∷◌ c s) (String.◌∷◌ d t) String.[] h k = absurd (cc k)
lt_text_trans (String.◌∷◌ c s) (String.◌∷◌ d t) (String.◌∷◌ e u) h k =
    ground (arith, h, k, lt_text_trans s t u)

pub compared : (s t : String) → Compared s t
unfolding lt_text
compared String.[] String.[] = same refl refl refl
compared String.[] (String.◌∷◌ d t) = before refl refl
compared (String.◌∷◌ c s) String.[] = behind refl refl
compared (String.◌∷◌ c s) (String.◌∷◌ d t) = elim (Bool-cases (ltb (code c) (code d))) [
  | inl less ↦ before (ground (arith, less)) (ground (arith, less))
  | inr least ↦ elim (Bool-cases (ltb (code d) (code c))) [
    | inl more ↦ behind (ground (arith, more)) (ground (arith, more))
    | inr most ↦
        let equal : code c ≡ code d = ground (arith, least, most) in
        elim (compared s t) [
          | before l g ↦ before (ground (arith, l, equal)) (ground (arith, g, equal))
          | same e l g ↦
              same (λ i. String.◌∷◌ (Char-path c d equal i) (e i)) (ground (arith, l, equal))
                (ground (arith, g, equal))
          | behind l g ↦ behind (ground (arith, l, equal)) (ground (arith, g, equal))
        ]
  ]
]

pub lt_text_irrefl : (s : String) → lt_text s s ≡ false
unfolding lt_text
lt_text_irrefl String.[] = refl
lt_text_irrefl (String.◌∷◌ c s) = ground (arith, lt_text_irrefl s)

lt_text_asym : (s t : String) → lt_text s t ≡ true → lt_text t s ≡ false
lt_text_asym s t h = elim (Bool-cases (lt_text t s)) [
  | inl back ↦ absurd (cc (lt_text_trans s t s h back, lt_text_irrefl s))
  | inr no_back ↦ no_back
]

module _ (k : String) (v : Json) (h : String) (u : Json) (m : Fields) where
  pub insert_member-before :
      lt_text k h ≡ true → insert_member k v (field h u m) ≡ field k v (field h u m)
  unfolding insert_member
  insert_member-before l = ground (arith, l)

  pub insert_member-same :
      lt_text k h ≡ false → lt_text h k ≡ false → insert_member k v (field h u m) ≡ field h u m
  unfolding insert_member
  insert_member-same l g = ground (arith, l, g)

  pub insert_member-behind :
      lt_text k h ≡ false
      → lt_text h k ≡ true
      → insert_member k v (field h u m) ≡ field h u (insert_member k v m)
  unfolding insert_member
  insert_member-behind l g = ground (arith, l, g)

-- A name before both goes first.
insert_member-first :
    (k j h : String) (v w u : Json) (m : Fields)
    → lt_text k j ≡ true
    → lt_text k h ≡ true
    → insert_member k v (insert_member j w (field h u m))
      ≡ field k v (insert_member j w (field h u m))
insert_member-first k j h v w u m kj kh = elim (compared j h) [
  | before l g ↦ rw (insert_member-before j w h u m l) (insert_member-before k v j w _ kj)
  | same e l g ↦ rw (insert_member-same j w h u m l g) (insert_member-before k v h u m kh)
  | behind l g ↦ rw (insert_member-behind j w h u m l g) (insert_member-before k v h u _ kh)
]

insert_member-less :
    (k j : String) (v w : Json) (m : Fields)
    → lt_text k j ≡ true
    → lt_text j k ≡ false
    → insert_member k v (insert_member j w m) ≡ insert_member j w (insert_member k v m)
unfolding insert_member
insert_member-less k j v w end kj jk = ground (arith, kj, jk)
insert_member-less k j v w (field h u m) kj jk = elim (compared k h) [
  | before l g ↦ cc (
    insert_member-first k j h v w u m kj l,
    insert_member-before k v h u m l,
    insert_member-behind j w k v (field h u m) jk kj,
  )
  | same e l g ↦
      let hj : lt_text h j ≡ true = subst (λ x. lt_text x j ≡ true) e kj in
      let jh : lt_text j h ≡ false = subst (λ x. lt_text j x ≡ false) e jk in
      cc (
        insert_member-behind j w h u m jh hj,
        insert_member-same k v h u (insert_member j w m) l g,
        insert_member-same k v h u m l g,
      )
  | behind l g ↦
      let hj : lt_text h j ≡ true = lt_text_trans h k j g kj in
      let jh : lt_text j h ≡ false = lt_text_asym h j hj in
      cc (
        insert_member-behind j w h u m jh hj,
        insert_member-behind k v h u (insert_member j w m) l g,
        insert_member-behind k v h u m l g,
        insert_member-behind j w h u (insert_member k v m) jh hj,
        insert_member-less k j v w m kj jk,
      )
]

pub insert_member-swap :
    (k j : String) (v w : Json) (m : Fields)
    → k ≢ j
    → insert_member k v (insert_member j w m) ≡ insert_member j w (insert_member k v m)
insert_member-swap k j v w m apart = elim (compared k j) [
  | before l g ↦ insert_member-less k j v w m l g
  | same e l g ↦ absurd (apart e)
  | behind l g ↦ sym (insert_member-less j k w v m g l)
]

-- A later member of the same name wins.
pub insert_member-again :
    (k : String) (v w : Json) (m : Fields)
    → insert_member k v (insert_member k w m) ≡ insert_member k w m
unfolding insert_member
insert_member-again k v w end = ground (arith, lt_text_irrefl k)
insert_member-again k v w (field h u m) = elim (compared k h) [
  | before l g ↦
      rw (insert_member-before k w h u m l)
        (insert_member-same k v k w _ (lt_text_irrefl k) (lt_text_irrefl k))
  | same e l g ↦ rw (insert_member-same k w h u m l g) (insert_member-same k v h u m l g)
  | behind l g ↦ cc (
    insert_member-behind k w h u m l g,
    insert_member-behind k v h u (insert_member k w m) l g,
    insert_member-again k v w m,
  )
]
