-- ===== src/Calculations/Errors.antt =====
-- The exceptions that calculations/ raises, the `DoesNotExist` of a query, and
-- the error of an attribute of `None`. Messages are not modelled.
pub data Error : Type 0 where
  empty_range value_error conversion_error exactness_error sub_hertz_error : Error
  assertion_error does_not_exist attribute_error : Error
