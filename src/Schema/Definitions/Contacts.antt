-- ===== src/Schema/Definitions/Contacts.antt =====
-- `USER_SCHEMA` of src/schema/definitions.rs: a user's contacts.
use scim_server.Common.{true, false}
use scim_server.Text.{codes}
use scim_server.Schema.Definitions.{
  AttributeDefinition, attribute_definition, no_attributes, attribute, string_type, boolean,
  reference, complex_type, read_write, default, no_uniqueness,
}

abbrev pub emails : AttributeDefinition
emails =
    attribute_definition (codes "emails") complex_type true "Email addresses for the user" false
      false read_write default no_uniqueness
      (attribute
        (attribute_definition (codes "value") string_type false "Email addresses for the user" false
          false read_write default no_uniqueness no_attributes)
        (attribute
          (attribute_definition (codes "type") string_type false
            "A label indicating the attribute's function" false false read_write default
            no_uniqueness no_attributes)
          (attribute
            (attribute_definition (codes "primary") boolean false
              "A Boolean value indicating the 'primary' or preferred attribute value" false false
              read_write default no_uniqueness no_attributes)
            (no_attributes))))

abbrev pub phone_numbers : AttributeDefinition
phone_numbers =
    attribute_definition (codes "phoneNumbers") complex_type true "Phone numbers for the user" false
      false read_write default no_uniqueness
      (attribute
        (attribute_definition (codes "value") string_type false "Phone number" false false
          read_write default no_uniqueness no_attributes)
        (attribute
          (attribute_definition (codes "type") string_type false "Type of phone number" false false
            read_write default no_uniqueness no_attributes)
          (attribute
            (attribute_definition (codes "primary") boolean false "Primary phone indicator" false
              false read_write default no_uniqueness no_attributes)
            (no_attributes))))

abbrev pub ims : AttributeDefinition
ims =
    attribute_definition (codes "ims") complex_type true "Instant messaging addresses for the user"
      false false read_write default no_uniqueness
      (attribute
        (attribute_definition (codes "value") string_type false "Instant messaging address" false
          false read_write default no_uniqueness no_attributes)
        (attribute
          (attribute_definition (codes "type") string_type false "Type of instant messaging service"
            false false read_write default no_uniqueness no_attributes)
          (no_attributes)))

abbrev pub photos : AttributeDefinition
photos =
    attribute_definition (codes "photos") complex_type true "URLs of photos of the user" false false
      read_write default no_uniqueness
      (attribute
        (attribute_definition (codes "value") reference false "URL of a photo of the user" false
          false read_write default no_uniqueness no_attributes)
        (attribute
          (attribute_definition (codes "type") string_type false "Type of photo" false false
            read_write default no_uniqueness no_attributes)
          (no_attributes)))

abbrev pub addresses : AttributeDefinition
addresses =
    attribute_definition (codes "addresses") complex_type true
      "Physical mailing addresses for the user" false false read_write default no_uniqueness
      (attribute
        (attribute_definition (codes "formatted") string_type false "Full mailing address" false
          false read_write default no_uniqueness no_attributes)
        (attribute
          (attribute_definition (codes "streetAddress") string_type false
            "Full street address component" false false read_write default no_uniqueness
            no_attributes)
          (attribute
            (attribute_definition (codes "locality") string_type false "City or locality component"
              false false read_write default no_uniqueness no_attributes)
            (attribute
              (attribute_definition (codes "region") string_type false "State or region component"
                false false read_write default no_uniqueness no_attributes)
              (attribute
                (attribute_definition (codes "postalCode") string_type false
                  "Zip or postal code component" false false read_write default no_uniqueness
                  no_attributes)
                (attribute
                  (attribute_definition (codes "country") string_type false "Country name component"
                    false false read_write default no_uniqueness no_attributes)
                  (attribute
                    (attribute_definition (codes "type") string_type false "Type of address" false
                      false read_write default no_uniqueness no_attributes)
                    (attribute
                      (attribute_definition (codes "primary") boolean false
                        "Primary address indicator" false false read_write default no_uniqueness
                        no_attributes)
                      (no_attributes)))))))))
