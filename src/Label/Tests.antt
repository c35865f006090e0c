-- ===== src/Label/Tests.antt =====
-- Runs of the two functions `dnsLabel`, and the theorems at concrete names.
use serverless.Base.{ℕ, ◌≡◌, refl, true, false, codes, ◌+◌, leb, ◌&&◌, if◌then◌else◌}
use serverless.Label.Gateway.{dns_label, is_valid_function_name}
use serverless.Label.Mq
use serverless.Label.Mq.{
  spaced, IsTriggerId, is_trigger_id, is_dns_label, is_trigger_id_iff, is_trigger_id_of_valid,
}

-- `unicode.ToLower` on ASCII.
abbrev ascii_lower : ℕ → ℕ
ascii_lower c = if leb b'A' c && leb c b'Z' then c + 32 else c

label_of_text : dns_label ascii_lower (codes "--My  Func_1!") ≡ codes "my-func-1"
unfolding dns_label
label_of_text = refl

label_of_nothing : dns_label ascii_lower (codes "__") ≡ codes "fn"
unfolding dns_label
label_of_nothing = refl

mq_label_of_text : Mq.dns_label ascii_lower (codes "--My--Func_1!-") ≡ codes "my-func1"
unfolding Mq.dns_label
mq_label_of_text = refl

-- The two services disagree on "a--b".
two_dashes_gateway : is_valid_function_name ascii_lower (codes "a--b") ≡ true
unfolding is_valid_function_name dns_label
two_dashes_gateway = refl

two_dashes_mq : is_trigger_id ascii_lower (codes "a--b") ≡ false
unfolding is_trigger_id
two_dashes_mq = refl
