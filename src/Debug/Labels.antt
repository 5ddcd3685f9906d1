-- ===== src/Debug/Labels.antt =====
-- src/semDebug_sharedDataSync.h: the names of the states and of the requests in the deadlock report.
use so2023_trabalho.Base.{
  ℕ, ◌+◌, ◌*◌, ◌<◌, ◌≡◌, refl, ap, ◌∙◌, sym, ℤ, pos, is_pos, List, [], ◌∷◌, if◌then◌else◌, length,
  codes, all_below, all_below_sound, ◌==◌, ==_iff, arith,
}

unfoldable pub get_group_stage_label : ℤ → List ℕ
get_group_stage_label stage =
    if is_pos stage 1
    then codes "GOTOREST"
    else if is_pos stage 2
    then codes "ATRECEPTION"
    else if is_pos stage 3
    then codes "FOOD_REQUEST"
    else if is_pos stage 4
    then codes "WAIT_FOR_FOOD"
    else if is_pos stage 5
    then codes "EAT"
    else if is_pos stage 6
    then codes "CHECKOUT"
    else if is_pos stage 7
    then codes "LEAVING"
    else []

pub get_chef_stage_label : ℤ → List ℕ
get_chef_stage_label stage =
    if is_pos stage 0
    then codes "WAIT_FOR_ORDER"
    else if is_pos stage 1
    then codes "COOK"
    else if is_pos stage 2
    then codes "REST"
    else []

pub get_waiter_stage_label : ℤ → List ℕ
get_waiter_stage_label stage =
    if is_pos stage 0
    then codes "WAIT_FOR_REQST"
    else if is_pos stage 1
    then codes "INFORM_CHEF"
    else if is_pos stage 2
    then codes "TAKE_TO_TABLE"
    else []

pub get_receptionist_stage_label : ℤ → List ℕ
get_receptionist_stage_label stage =
    if is_pos stage 1 then codes "ASSIGNTABLE" else if is_pos stage 2 then codes "RECVPAY" else []

pub get_request_label : ℤ → List ℕ
get_request_label request =
    if is_pos request 1
    then codes "TABLEREQ"
    else if is_pos request 2
    then codes "BILLREQ"
    else if is_pos request 3
    then codes "FOODREQ"
    else if is_pos request 4
    then codes "FOODREADY"
    else []

-- A number that tells the labels apart: the first letter and the length.
mark : List ℕ → ℕ
mark [] = 0
mark (c ∷ cs) = c * 100 + length cs

-- The stage whose label has the mark.
stage_of_mark : ℕ → ℕ
stage_of_mark k =
    if k == 7107
    then 1
    else if k == 6510
    then 2
    else if k == 7011
    then 3
    else if k == 8712
    then 4
    else if k == 6902
    then 5
    else if k == 6707
    then 6
    else 7

request_of_mark : ℕ → ℕ
request_of_mark k = if k == 8407 then 1 else if k == 6606 then 2 else if k == 7006 then 3 else 4

stage-found : (x : ℕ) → x < 7 → stage_of_mark (mark (get_group_stage_label (pos (1 + x)))) ≡ 1 + x
unfolding stage_of_mark mark get_group_stage_label all_below
stage-found x h = (==_iff (stage_of_mark (mark (get_group_stage_label (pos (1 + x))))) (1 + x)).0 (
    all_below_sound 7 (λ y. stage_of_mark (mark (get_group_stage_label (pos (1 + y)))) == 1 + y)
      refl x h)

request-found : (x : ℕ) → x < 4 → request_of_mark (mark (get_request_label (pos (1 + x)))) ≡ 1 + x
unfolding request_of_mark mark get_request_label all_below
request-found x h = (==_iff (request_of_mark (mark (get_request_label (pos (1 + x))))) (1 + x)).0 (
    all_below_sound 4 (λ y. request_of_mark (mark (get_request_label (pos (1 + y)))) == 1 + y) refl
      x h)

-- No two of the seven states of a group, of `GOTOREST` to `LEAVING`, have the same name in the report.
pub group_stage_label-injective :
    (x y : ℕ)
    → x < 7
    → y < 7
    → get_group_stage_label (pos (1 + x)) ≡ get_group_stage_label (pos (1 + y))
    → x ≡ y
group_stage_label-injective x y hx hy e =
    omega (arith, sym (stage-found x hx) ∙ ap (λ l. stage_of_mark (mark l)) e ∙ stage-found y hy)

-- No two of the four kinds of request, of `TABLEREQ` to `FOODREADY`, have the same name in the report.
pub request_label-injective :
    (x y : ℕ)
    → x < 4
    → y < 4
    → get_request_label (pos (1 + x)) ≡ get_request_label (pos (1 + y))
    → x ≡ y
request_label-injective x y hx hy e =
    omega
      (arith, sym (request-found x hx) ∙ ap (λ l. request_of_mark (mark l)) e ∙ request-found y hy)
