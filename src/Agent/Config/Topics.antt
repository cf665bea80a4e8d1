-- ===== src/Agent/Config/Topics.antt =====
-- The topics of src/labelfab/agent/config.py.
use labelfab.Common.{◌≡◌, subst, arith, true, [], ◌∷◌, ◌++◌}
use labelfab.Agent.Config.{Config, Text, all_id_chars, is_printer_id, is_valid, topic}

-- A text without a slash is found again in front of one.
split_at_slash :
    (xs ys u v : Text)
    → all_id_chars xs ≡ true
    → all_id_chars ys ≡ true
    → xs ++ (b'/' ∷ u) ≡ ys ++ (b'/' ∷ v)
    → (xs ≡ ys) × (u ≡ v)
unfolding all_id_chars
split_at_slash [] [] u v h k e = ground arith
split_at_slash [] (y ∷ ys) u v h k e = absurd (ground arith)
split_at_slash (x ∷ xs) [] u v h k e = absurd (ground arith)
split_at_slash (x ∷ xs) (y ∷ ys) u v h k e =
    let (same, rest) = split_at_slash xs ys u v (ground arith) (ground arith) (cc) in
    let head : x ≡ y = cc in (cc, rest)

strip_prefix : (p xs ys : Text) → p ++ xs ≡ p ++ ys → xs ≡ ys
strip_prefix [] xs ys e = e
strip_prefix (c ∷ p) xs ys e = strip_prefix p xs ys (cc)

id_chars-valid : (c : Config) → is_valid c ≡ true → all_id_chars c.agent.printer_id ≡ true
unfolding is_valid is_printer_id
id_chars-valid c h = valid_id c.agent.printer_id (ground arith)
  where
    valid_id : (t : Text) → is_printer_id t ≡ true → all_id_chars t ≡ true
    valid_id [] h = cc
    valid_id (x ∷ xs) h = ground arith

-- Agents whose configurations pass the checks and that share the root of the topics have a topic in
-- common only if they drive the same printer, and then only for the same leaf, whatever the leaves.
pub topic-injective :
    (c d : Config) (leaf other : Text)
    → is_valid c ≡ true
    → is_valid d ≡ true
    → c.agent.topic_prefix ≡ d.agent.topic_prefix
    → topic c leaf ≡ topic d other
    → (c.agent.printer_id ≡ d.agent.printer_id) × (leaf ≡ other)
unfolding topic
topic-injective c d leaf other valid_c valid_d root same =
    let below = strip_prefix d.agent.topic_prefix _ _ (
      subst (λ p. p ++ (b'/' ∷ (c.agent.printer_id ++ (b'/' ∷ leaf))) ≡ topic d other) root same) in
    split_at_slash c.agent.printer_id d.agent.printer_id leaf other (id_chars-valid c valid_c)
      (id_chars-valid d valid_d) (cc)
