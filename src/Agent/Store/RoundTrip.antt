-- ===== src/Agent/Store/RoundTrip.antt =====
-- The state file: what was saved last is what is loaded.
use emorelay.Base.{ℕ, true, take, Option, none, some, List, [], ◌∷◌, ◌≡◌, refl, ap, ap₂, ◌∙◌, All}
use emorelay.Proto.{TargetEndpoint, TunnelContext, Rule}
use emorelay.Agent.Store.{
  RuleJson, json_of_targets, targets_of_json, json_of_tunnel, tunnel_of_json, json_of_rule,
  rule_of_json, jsons_of_rules, rules_of_jsons, Disk, Ending, create_fails, write_stops,
  rename_fails, flush_fails, completes, parsed, load, save,
}

targets_back : (ts : List TargetEndpoint) → targets_of_json (json_of_targets ts) ≡ ts
targets_back [] = refl
targets_back (t ∷ ts) = ap (λ us. t ∷ us) (targets_back ts)

tunnel_back : (t : Option TunnelContext) → tunnel_of_json (json_of_tunnel t) ≡ t
tunnel_back none = refl
tunnel_back (some t) = refl

-- Writing a rule into its JSON mirror and reading it back loses no field.
pub rule_of_json-json_of_rule : (r : Rule) → rule_of_json (json_of_rule r) ≡ r
unfolding rule_of_json json_of_rule
rule_of_json-json_of_rule r =
    ap₂ (λ t ts. record r { tunnel = t; extra_targets = ts }) (tunnel_back r.tunnel)
      (targets_back r.extra_targets)

rules_back : (rs : List Rule) → rules_of_jsons (jsons_of_rules rs) ≡ rs
rules_back [] = refl
rules_back (r ∷ rs) = ap₂ (λ u us. u ∷ us) (rule_of_json-json_of_rule r) (rules_back rs)

module _ (to_vec : List RuleJson → List ℕ) (from_slice : List ℕ → Option (List RuleJson)) where
  -- What the codec makes of the first bytes of what a save writes.
  abbrev pub beginning : ℕ → List Rule → Option (List Rule)
  beginning n rules = parsed from_slice (take n (to_vec (jsons_of_rules rules)))

  -- The rules of the last save that reported success: all of them, or the beginning that was written
  -- if the flush failed.
  abbrev pub last_saved : Option (List Rule) → List (List Rule × Ending) → Option (List Rule)
  last_saved old [] = old
  last_saved old ((rules, completes) ∷ ss) = last_saved (some rules) ss
  last_saved old ((rules, flush_fails n) ∷ ss) = last_saved (beginning n rules) ss
  last_saved old ((rules, _) ∷ ss) = last_saved old ss

module _ (to_vec : List RuleJson → List ℕ) where
  abbrev pub saves : Disk → List (List Rule × Ending) → Disk
  saves d [] = d
  saves d ((rules, e) ∷ ss) = saves (save to_vec d rules e).0 ss

-- The codec reads back what it wrote for these rules.
abbrev pub Parses :
    (List RuleJson → List ℕ) → (List ℕ → Option (List RuleJson)) → List Rule → Type 0
Parses to_vec from_slice rules =
    from_slice (to_vec (jsons_of_rules rules)) ≡ some (jsons_of_rules rules)

module _ (to_vec : List RuleJson → List ℕ) (from_slice : List ℕ → Option (List RuleJson)) where
  parsed-to_vec :
      (rules : List Rule)
      → Parses to_vec from_slice rules
      → parsed from_slice (to_vec (jsons_of_rules rules)) ≡ some rules
  parsed-to_vec rules p = rw (p, parsed) (ap some (rules_back rules))

  pub load-save :
      (d : Disk) (rules : List Rule) (e : Ending)
      → Parses to_vec from_slice rules
      → load from_slice true (save to_vec d rules e).0
        ≡ last_saved to_vec from_slice (load from_slice true d) ((rules, e) ∷ [])
  unfolding load save
  load-save d rules create_fails p = refl
  load-save d rules (write_stops n) p = refl
  load-save d rules rename_fails p = refl
  load-save d rules (flush_fails n) p = refl
  load-save d rules completes p = parsed-to_vec rules p

  -- Whatever sequence of saves runs, and wherever each fails or is cut off by a crash, a load that
  -- can read the file afterwards gives the rules of the last save that reported success, or what was
  -- there before the first; only if the flush of that last save failed, which the save does not
  -- report, the load gives what the codec makes of the beginning that was written. Provided that the
  -- codec parses what it wrote for the rules that were saved.
  pub load-saves :
      (d : Disk) (ss : List (List Rule × Ending))
      → All (λ (s : List Rule × Ending). Parses to_vec from_slice s.0) ss
      → load from_slice true (saves to_vec d ss)
        ≡ last_saved to_vec from_slice (load from_slice true d) ss
  load-saves d [] p = refl
  load-saves d ((rules, create_fails) ∷ ss) (p, ps) =
      load-saves (save to_vec d rules create_fails).0 ss ps
      ∙ ap (λ o. last_saved to_vec from_slice o ss) (load-save d rules create_fails p)
  load-saves d ((rules, write_stops n) ∷ ss) (p, ps) =
      load-saves (save to_vec d rules (write_stops n)).0 ss ps
      ∙ ap (λ o. last_saved to_vec from_slice o ss) (load-save d rules (write_stops n) p)
  load-saves d ((rules, rename_fails) ∷ ss) (p, ps) =
      load-saves (save to_vec d rules rename_fails).0 ss ps
      ∙ ap (λ o. last_saved to_vec from_slice o ss) (load-save d rules rename_fails p)
  load-saves d ((rules, flush_fails n) ∷ ss) (p, ps) =
      load-saves (save to_vec d rules (flush_fails n)).0 ss ps
      ∙ ap (λ o. last_saved to_vec from_slice o ss) (load-save d rules (flush_fails n) p)
  load-saves d ((rules, completes) ∷ ss) (p, ps) =
      load-saves (save to_vec d rules completes).0 ss ps
      ∙ ap (λ o. last_saved to_vec from_slice o ss) (load-save d rules completes p)
