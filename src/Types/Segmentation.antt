-- ===== src/Types/Segmentation.antt =====
-- types.go: `Segmentation`: its constants that have a name, and its `String` method.
use bacnet_go.Base.{ℕ, [], ◌∷◌}
use bacnet_go.Enumeration.{Enumeration}

abbrev segmentation_both : ℕ
segmentation_both = 0

abbrev segmentation_transmit : ℕ
segmentation_transmit = 1

abbrev segmentation_receive : ℕ
segmentation_receive = 2

abbrev pub segmentation_none : ℕ
segmentation_none = 3

-- `(Segmentation).String`
abbrev pub segmentations : Enumeration
segmentations = record {
  word = "segmentation";
  names =
      (segmentation_both, "segmented-both")
      ∷ (segmentation_transmit, "segmented-transmit")
      ∷ (segmentation_receive, "segmented-receive")
      ∷ (segmentation_none, "no-segmentation")
      ∷ [];
}
