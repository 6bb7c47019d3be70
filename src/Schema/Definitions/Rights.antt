-- ===== src/Schema/Definitions/Rights.antt =====
-- `USER_SCHEMA` of src/schema/definitions.rs: a user's state, rights and memberships.
use scim_server.Common.{true, false}
use scim_server.Text.{codes}
use scim_server.Schema.Definitions.{
  AttributeDefinition, attribute_definition, no_attributes, attribute, string_type, boolean,
  date_time, reference, complex_type, read_only, read_write, write_only, never, default,
  no_uniqueness,
}

abbrev pub active : AttributeDefinition
active =
    attribute_definition (codes "active") boolean false
      "A Boolean value indicating the User's administrative status" false false read_write default
      no_uniqueness no_attributes

abbrev pub password : AttributeDefinition
password =
    attribute_definition (codes "password") string_type false "The User's cleartext password" false
      true write_only never no_uniqueness no_attributes

abbrev pub entitlements : AttributeDefinition
entitlements =
    attribute_definition (codes "entitlements") complex_type true
      "A list of entitlements for the User" false false read_write default no_uniqueness
      (attribute
        (attribute_definition (codes "value") string_type false "The value of an entitlement" false
          false read_write default no_uniqueness no_attributes)
        (attribute
          (attribute_definition (codes "display") string_type false
            "A human-readable name for the entitlement" false false read_write default no_uniqueness
            no_attributes)
          (attribute
            (attribute_definition (codes "type") string_type false
              "A label indicating the attribute's function" false false read_write default
              no_uniqueness no_attributes)
            (attribute
              (attribute_definition (codes "primary") boolean false
                "A Boolean value indicating the 'primary' or preferred attribute value" false false
                read_write default no_uniqueness no_attributes)
              (no_attributes)))))

abbrev pub roles : AttributeDefinition
roles =
    attribute_definition (codes "roles") complex_type true "A list of roles for the User" false
      false read_write default no_uniqueness
      (attribute
        (attribute_definition (codes "value") string_type false "The value of a role" false false
          read_write default no_uniqueness no_attributes)
        (attribute
          (attribute_definition (codes "display") string_type false
            "A human-readable name for the role" false false read_write default no_uniqueness
            no_attributes)
          (attribute
            (attribute_definition (codes "type") string_type false
              "A label indicating the attribute's function" false false read_write default
              no_uniqueness no_attributes)
            (attribute
              (attribute_definition (codes "primary") boolean false
                "A Boolean value indicating the 'primary' or preferred attribute value" false false
                read_write default no_uniqueness no_attributes)
              (no_attributes)))))

abbrev pub x509_certificates : AttributeDefinition
x509_certificates =
    attribute_definition (codes "x509Certificates") complex_type true
      "A list of certificates issued to the User" false false read_write default no_uniqueness
      (attribute
        (attribute_definition (codes "value") string_type false "The value of an X.509 certificate"
          false false read_write default no_uniqueness no_attributes)
        (attribute
          (attribute_definition (codes "display") string_type false
            "A human-readable name for the X.509 certificate" false false read_write default
            no_uniqueness no_attributes)
          (attribute
            (attribute_definition (codes "type") string_type false
              "A label indicating the attribute's function" false false read_write default
              no_uniqueness no_attributes)
            (attribute
              (attribute_definition (codes "primary") boolean false
                "A Boolean value indicating the 'primary' or preferred attribute value" false false
                read_write default no_uniqueness no_attributes)
              (no_attributes)))))

abbrev pub groups : AttributeDefinition
groups =
    attribute_definition (codes "groups") complex_type true
      "A list of groups to which the user belongs" false false read_only default no_uniqueness
      (attribute
        (attribute_definition (codes "value") string_type false "The identifier of the User's group"
          false true read_only default no_uniqueness no_attributes)
        (attribute
          (attribute_definition (codes "$ref") reference false
            "The URI of the corresponding 'Group' resource" false true read_only default
            no_uniqueness no_attributes)
          (attribute
            (attribute_definition (codes "display") string_type false
              "A human-readable name for the Group" false false read_only default no_uniqueness
              no_attributes)
            (no_attributes))))

abbrev pub meta : AttributeDefinition
meta =
    attribute_definition (codes "meta") complex_type false "Resource metadata" false false read_only
      default no_uniqueness
      (attribute
        (attribute_definition (codes "resourceType") string_type false
          "The name of the resource type of the resource" false true read_only default no_uniqueness
          no_attributes)
        (attribute
          (attribute_definition (codes "created") date_time false
            "The 'DateTime' that the resource was added to the service provider" false false
            read_only default no_uniqueness no_attributes)
          (attribute
            (attribute_definition (codes "lastModified") date_time false
              "The most recent DateTime that the details of this resource were updated" false false
              read_only default no_uniqueness no_attributes)
            (attribute
              (attribute_definition (codes "location") string_type false
                "The URI of the resource being returned" false true read_only default no_uniqueness
                no_attributes)
              (no_attributes)))))
