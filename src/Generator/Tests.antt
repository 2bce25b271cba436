-- ===== src/Generator/Tests.antt =====
-- The imports of two packages of one name, and the texts of a method.
mod Types
mod Mocks
mod Command
use clue.Base.{
  true, Bytes, ℕ, zero, suc, ◌≡◌, refl, ap, false, String, some, [], ◌∷◌, codes, length, arith,
}
use clue.Generator.Names.{Numbers}
use clue.Generator.Imports.{Import, ImportMaps, Texts, all_imports, add_import}
use clue.Generator.Methods.{
  Method, interface_var, func_var, parameters_text, parameter_vars, results_text,
}
use clue.Generator.Methods.Vars.{IsFresh, method_vars-IsFresh}
use clue.Generator.Imports.Unique.{IsProper, Added, insert_at-Added, add_import-Added}

-- Numbers as strokes.
abbrev strokes : ℕ → String
strokes zero = "1"
strokes (suc n) = String.◌∷◌ "1" (strokes n)

length-strokes : (n : ℕ) → length (codes (strokes n)) ≡ suc n
length-strokes zero = refl
length-strokes (suc n) = ap suc (length-strokes n)

abbrev pub texts : Texts
texts = record {
  base = λ path. "template";
  has_dot = λ path. false;
  in_module = λ module_path path. false;
  numbered = λ name i. strokes i;
}

pub texts-Numbers : Numbers texts.numbered
texts-Numbers = (
  λ name i j e.
      let same = ap (λ s. length (codes s)) e in
      let a = length-strokes i in let b = length-strokes j in omega (arith, same, a, b),
  λ name i e.
      let same : length (codes (strokes i)) ≡ 0 = ap (λ s. length (codes s)) e in
      let a = length-strokes i in absurd (omega (arith, same, a)),
)

abbrev html : Import
html = record { pkg_path = "html/template"; pkg_name = "template"; alias = "" }

abbrev text : Import
text = record { pkg_path = "text/template"; pkg_name = "template"; alias = "" }

abbrev pub one_import : ImportMaps
one_import = record { std_imports = ("template", html) ∷ []; ext_imports = []; int_imports = [] }

no_imports-IsProper : IsProper ([] ∷ ([] ∷ ([] ∷ [])))
no_imports-IsProper = (λ k i h. ground (arith, h), λ k i j h h'. ground (arith, h))

pub one_import-IsProper : IsProper (all_imports one_import)
one_import-IsProper =
    (insert_at-Added ([] ∷ ([] ∷ ([] ∷ []))) no_imports-IsProper "html/template" 0 "template" html
      (omega arith) refl refl (λ i h. ground (arith, h))).0

add_import-Added_example :
    (im' : ImportMaps) × (i : Import) × (add_import texts 2 "example.com" one_import text
      ≡ some (im', i))
    × Added (all_imports one_import) "text/template" (all_imports im') i
add_import-Added_example =
    add_import-Added texts 2 "example.com" one_import text texts-Numbers one_import-IsProper refl
      (omega arith)

-- A method of three parameters, one of them m and one the first stroke.
abbrev three_parameters : Method
three_parameters = record {
  name = "Fold";
  parameters =
      record { name = "m"; type = 0 }
      ∷ (record { name = "1"; type = 0 } ∷ (record { name = "c"; type = 1 } ∷ []));
  results = record { name = ""; type = 1 } ∷ (record { name = ""; type = 1 } ∷ []);
  variadic = true;
}

abbrev type_names : ℕ → Bytes
type_names zero = codes "int"
type_names (suc n) = codes "[]string"

method_vars-IsFresh_example :
    IsFresh ("m" ∷ ("1" ∷ ("c" ∷ []))) (interface_var texts.numbered 4 three_parameters)
    × IsFresh ("m" ∷ ("1" ∷ ("c" ∷ []))) (func_var texts.numbered 4 three_parameters)
method_vars-IsFresh_example =
    method_vars-IsFresh texts.numbered 4 three_parameters texts-Numbers (omega arith)

parameters_text_test : parameters_text type_names three_parameters ≡ codes "m, 1 int, c ...string"
parameters_text_test = refl

parameter_vars_test : parameter_vars three_parameters ≡ codes "m, 1, c..."
parameter_vars_test = refl

results_text_test : results_text type_names three_parameters ≡ codes "([]string, []string)"
results_text_test = refl
