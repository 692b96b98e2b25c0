-- ===== src/Service/Subscribe.antt =====
-- The parameters of SubscribeCOV.
use bacnet_go.Base.{ℕ, ◌≡◌, refl, false, none, append-nil}
use bacnet_go.Options.{SubscribeOptions}
use bacnet_go.Service.{subscribe_cov_parameters, unsubscribe_cov_parameters}
use bacnet_go.Types.ObjectId.{ObjectIdentifier}
use bacnet_go.Wire.Number.{encode_context_object_identifier}

-- A subscription to unconfirmed notifications without a lifetime, which is what no option gives, is
-- sent with the parameters of its cancellation.
pub subscribe_cov_parameters-unsubscribe_cov_parameters :
    (sub_id : ℕ) (oid : ObjectIdentifier) (options : SubscribeOptions)
    → options.confirmed ≡ false
    → options.lifetime ≡ none
    → subscribe_cov_parameters sub_id oid options ≡ unsubscribe_cov_parameters sub_id oid
unfolding subscribe_cov_parameters unsubscribe_cov_parameters
subscribe_cov_parameters-unsubscribe_cov_parameters sub_id oid options h k =
    rw (h, k, append-nil (encode_context_object_identifier 1 oid)) refl
